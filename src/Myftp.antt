-- ===== src/Myftp.antt =====
-- IPC/xsi/msg/myftp_msg: server.c, client.c and protol2.h, a file sent over one System V message queue
-- that server and client share. The queue is a parameter, with what msgsnd and msgrcv document. The
-- file is what its calls of read return; the client's fopen and fwrite succeed.
pub mod Sent
pub mod Saved
pub mod Endless
mod Tests
use linux_coding.Common.{
  ℕ, zero, suc, ◌+◌, ◌-◌, ◌≡◌, Bool, true, false, Option, some, none, List, [], ◌∷◌, ◌++◌, length,
  take, ◌==◌, if◌then◌else◌,
}

-- `DATAMAX`, `PATHMAX`
abbrev pub data_max : ℕ
data_max = 1024

abbrev pub path_max : ℕ
path_max = 1024

-- `msg_path_t` (the string before its NUL), `msg_data_t`, `msg_eot_t`.
pub data Message : Type 0 where
  msg_path : List ℕ → Message
  msg_data : ℕ → List ℕ → Message
  msg_eot : Message

-- `MSG_PATH`, `MSG_DATA`, `MSG_EOT`: the `mtype` that each message is sent with.
unfoldable pub mtype : Message → ℕ
mtype (msg_path path) = 1
mtype (msg_data datalen content) = 2
mtype msg_eot = 3

-- The first message of a type, and what the others are.
unfoldable pub first_of : ℕ → List Message → Option (Message × List Message)
first_of t [] = none
first_of t (m ∷ ms) =
    let later = first_of t ms in
    if mtype m == t
    then some (m, ms)
    else elim later [ none ↦ none | some (found, rest) ↦ some (found, m ∷ rest) ]

-- A message queue: `msgsnd` appends or fails (-1); `msgrcv` takes the first message of the type, and
-- `none` is that it waits.
pub record MsgQueue : Type 1 where
  Queue : Type 0
  held : Queue → List Message
  msgsnd : Queue → Message → Option Queue
  msgrcv : Queue → ℕ → Option (Message × Queue)
  msgsnd-held : (q r : Queue) (m : Message) → msgsnd q m ≡ some r → held r ≡ held q ++ (m ∷ [])
  msgrcv-held :
      (q : Queue) (t : ℕ) (m : Message) (ms : List Message)
      → first_of t (held q) ≡ some (m, ms)
      → (r : Queue) × (msgrcv q t ≡ some (m, r)) × (held r ≡ ms)
  msgrcv-none : (q : Queue) (t : ℕ) → first_of t (held q) ≡ none → msgrcv q t ≡ none

-- What the client's receive_and_save_file has come to: it waits for a packet with `saved` in its
-- file, it has returned -1 since msgrcv failed, or it has returned behind its loop, with `total_bytes`
-- of them (0 returns -1).
pub data Received (Q : Type 0) : Type 0 where
  waits : Q → List ℕ → Received Q
  receive_failed : Q → List ℕ → Received Q
  returned : Q → List ℕ → ℕ → Received Q

module _ (K : MsgQueue) where
  -- The status is true for 0 and false for -1.
  unfoldable pub send_data_packet : K.Queue → List ℕ → ℕ → Bool × K.Queue
  send_data_packet q content datalen = elim (K.msgsnd q (msg_data datalen content)) [
    | none ↦ (false, q)
    | some sent ↦ (true, sent)
  ]

  unfoldable pub send_eot_packet : K.Queue → Bool × K.Queue
  send_eot_packet q = elim (K.msgsnd q msg_eot) [ none ↦ (false, q) | some sent ↦ (true, sent) ]

  -- `while ((bytes_read = read(fd, buffer, DATAMAX)) > 0)`; `chunks` are what read returns until then.
  unfoldable pub send_chunks : K.Queue → List (List ℕ) → K.Queue
  send_chunks q [] = q
  send_chunks q (chunk ∷ chunks) =
      let sent = send_data_packet q chunk (length chunk) in
      let rest = send_chunks sent.1 chunks in if sent.0 then rest else sent.1

  -- `none` is that open fails.
  unfoldable pub handle_file_request : K.Queue → Option (List (List ℕ)) → K.Queue
  handle_file_request q none = (send_eot_packet q).1
  handle_file_request q (some chunks) = (send_eot_packet (send_chunks q chunks)).1

  -- One round of the server's main; `disk` is what open and read make of a path. `none` is that
  -- msgrcv waits. It takes MSG_PATH messages only.
  unfoldable pub server_round : (List ℕ → Option (List (List ℕ))) → K.Queue → Option K.Queue
  server_round disk q = elim (K.msgrcv q 1) [
    | none ↦ none
    | some (msg_path path, r) ↦ some (handle_file_request r (disk path))
    | some (msg_data datalen content, r) ↦ none
    | some (msg_eot, r) ↦ none
  ]

  unfoldable pub send_path_request : K.Queue → List ℕ → Bool × K.Queue
  send_path_request q path = elim (K.msgsnd q (msg_path (take (path_max - 1) path))) [
    | none ↦ (false, q)
    | some sent ↦ (true, sent)
  ]

  -- The loop of receive_and_save_file with `saved` written; `none` is out of fuel. `fails n` says that
  -- msgrcv gives -1 in the round with fuel `n` behind it.
  unfoldable pub receive_loop : (ℕ → Bool) → ℕ → K.Queue → List ℕ → Option (Received K.Queue)
  receive_loop fails zero q saved = none
  receive_loop fails (suc fuel) q saved = elim (fails fuel) [
    | true ↦ some (receive_failed q saved)
    | false ↦ elim (K.msgrcv q 2) [
      | none ↦ some (waits q saved)
      | some (msg_data datalen content, r) ↦
          let rest = receive_loop fails fuel r (saved ++ take datalen content) in
          if datalen == 0 then some (returned r saved (length saved)) else rest
      | some (msg_path path, r) ↦ none
      | some (msg_eot, r) ↦ none
    ]
  ]

  -- A client sends a request, the server runs a round, or a client takes a packet.
  pub data FtpStep (disk : List ℕ → Option (List (List ℕ))) : K.Queue → K.Queue → Type 0 where
    by_request : {q : K.Queue} (path : List ℕ) → FtpStep disk q ((send_path_request q path).1)
    by_server : {q r : K.Queue} → server_round disk q ≡ some r → FtpStep disk q r
    by_client : {q r : K.Queue} (m : Message) → K.msgrcv q 2 ≡ some (m, r) → FtpStep disk q r

  pub data FtpSteps (disk : List ℕ → Option (List (List ℕ))) : K.Queue → K.Queue → Type 0 where
    at_once : {q : K.Queue} → FtpSteps disk q q
    and_then : {q r s : K.Queue} → FtpSteps disk q r → FtpStep disk r s → FtpSteps disk q s
