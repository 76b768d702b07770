-- ===== src/Lib.antt =====
-- Models and proofs for a collection of Linux system programs in C: libraries with shared state, signal
-- handlers and threads, and programs built on them. Paths are from the root of the repository.
--
-- Files and the code they are about:
--   MyPipe       mypipe/mypipe.c, a pipe between threads. `mypipe_init`, `mypipe_register`,
--                `mypipe_unregister`, `mypipe_read` and `mypipe_write`, with the loops inside them.
--   AnyTimer     anytimer/anytimer.c, timed jobs on one alarm. `alrm_action` is the signal handler,
--                `tick_slots` its loop; the interface is `at_addjob`, `at_addjob_repeat`,
--                `at_canceljob` and `at_waitjob`.
--   Tbf          mytbf/mytbf.c, token buckets on SIGALRM. `mytbf_fetch_token` and
--                `mytbf_return_token` are mytbf_fetchToken and mytbf_returnToken.
--   TbfMt        thread/posix/mytbf_multithread/mytbf.c, the same with a thread and mutexes.
--   TbfSa        mytbf_sa/mytbf.c, the same with sigaction and an interval timer, without
--                mytbf_fetchToken, which names a variable that is not declared.
--   Relay        proIO/non-blocked/relayer/relayer.c, `fsm_driver`: the state machine that copies from
--                one descriptor to another.
--   RelayJobs    the same file, the table of jobs: `thr_relayer` round by round and `rel_addjob`.
--   RelayPair    proIO/non-blocked/relay_file.c, `relay`, and the rounds of proIO/epoll/relay.c (which
--                uses poll) and proIO/poll/relay.c (which uses epoll).
--   RelaySelect  proIO/select/relay.c: the loop of `relay`, which asks select.
--   Counters     thread/posix/productor_consumer/pc.c, homework/parking.c and
--                homework/sem_prod_cons.c: threads that share a counter or two semaphores.
--   StatPool     homework/statistic_file_with_thread_pool.c: a circular queue of directories, the
--                workers that scan them, and the counts.
--   ServerPool   IPC/socket/stream/pool_dynamic/server.c: the table of server processes and the step
--                that adds and kills processes; in ServerPool/Life also `server_job`, the child's loop,
--                and the starting of the pool.
--   ThreadPool   IPC/socket/Newer/server.c: the thread pool of the server, a linked list of tasks.
--   MySem        thread/posix/mysemphon/mysem.c: a counting semaphore.
--   Primes       thread/posix/primer_pool_busy.c, thread/posix/Newer/second.c and primer_by_*.c: the tests
--                for primes, and the files that threads write for their ranges.
--   PrimePool    thread/posix/primer_pool_busy.c: main hands numbers to threads through one variable.
--   Myftp        IPC/xsi/msg/myftp_msg: server.c and client.c, a file sent over a message queue.
--   Slices       homework/openssl/myslicer.c: a file cut into slices, and the digests of the slices.
--   StatThreads  homework/statistic_file.c: the counts of StatPool by a thread for each directory.
--   WordCount    homework/IO_std/MyWC.c, MyWC_op.c and cSourceStatist.c: words, lines and comments.
--   SlowCat      slowcat.c and slowcat2.c: a file copied at ten bytes for each alarm.
--   DiskUsage    mydu.c: the blocks of a directory and all below it.
--   Common       the names of the libraries passed on; tests on numbers, lists over the native
--                numbers, C's signed integers, and loops that wait.
-- A file X.antt has the definitions; the files under X/ have what is proved of them, and X/Tests.antt
-- has runs on small inputs. Relay is used by RelayJobs, RelayPair and RelaySelect, Tbf by TbfMt
-- and TbfSa, Primes by PrimePool, and StatPool by StatThreads, which counts in the same file system.
--
-- State. The static variables and objects of a file are a record, an operation a function from the
-- record before to the record after, with its result. An error code is a constructor of a result type.
-- A pointer into a table is its index, and a NULL slot is `none`. A use of a pointer whose object is
-- gone gives `none`. Myftp takes the kernel's message queue as a record of operations and of what is
-- documented of them; Slices takes MD5, WordCount isspace as a function. What malloc, fork, fcntl, read,
-- write, stat and opendir come to is an argument.
--
-- Concurrency. A critical section is one step. A loop that waits on a condition variable or in pause
-- is `wait_while`: a list says, for each time that the waiter comes back to its test, what the others
-- have done to the state in between; if the list ends before the test fails, the outcome is `none`, a
-- caller that still waits. Whole programs are step relations (Counters, StatPool, the registrations of
-- MyPipe, the jobs of RelayJobs, PrimePool, ServerPool, Myftp, SlowCat), and a run is any sequence of
-- steps. A scan of ServerPool is one step in which the children write before and between the parent's
-- two reads of each state.
--
-- Bounds. Loops over tables and bytes are recursion on the list. The control loops of ServerPool take
-- fuel, the number of idle processes before, or MINSPARESERVER: each round raises the loop's counter
-- by one and never raises its bound, which is at most that number. The tests for primes have fuel n +
-- 1, more than the divisors up to the root; show_dir and mydu have the depth of the directories, and
-- the client of Myftp the number of packets in the queue. C's int is the integers of Common/Int.antt
-- without wrapping; Tbf/Overflow has the bodies of Tbf with a check for overflow; sizes and counts
-- that cannot be negative are natural numbers.
--
-- Not modelled: the programs that only call the system (sockets, fifos, daemons, terminals, file
-- copies), the pool with a condition variable (mytbf_multithread/primer_pool_notice.c), those whose
-- work is done by OpenSSL, the further copies of the relay's state machine (proIO/non-blocked/relay.c
-- and realy_file.c), the main functions that only open and close, and the start and end of threads.
pub mod Common
pub mod AnyTimer
pub mod Counters
pub mod DiskUsage
pub mod MyPipe
pub mod MySem
pub mod Myftp
pub mod PrimePool
pub mod Primes
pub mod Relay
pub mod RelayJobs
pub mod RelayPair
pub mod RelaySelect
pub mod ServerPool
pub mod Slices
pub mod SlowCat
pub mod StatPool
pub mod StatThreads
pub mod Tbf
pub mod TbfMt
pub mod TbfSa
pub mod ThreadPool
pub mod WordCount
