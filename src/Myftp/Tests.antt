-- ===== src/Myftp/Tests.antt =====
-- A queue that is a list, a file of two pieces, and the witnesses of the theorems.
use linux_coding.Common.{
  ℕ, zero, suc, Bool, true, false, ◌⊎◌, ◌<◌, ◌≡◌, refl, subst, arith, Option, some, none, List, [],
  ◌∷◌, ◌++◌, length, ◌≢◌, All,
}
use linux_coding.Myftp.{
  Message, msg_eot, first_of, MsgQueue, waits, receive_failed, receive_loop, send_path_request,
  handle_file_request, FtpSteps, at_once, and_then, by_request,
}
use linux_coding.Myftp.Sent.{packets_of, others_of, Sends}
use linux_coding.Myftp.Saved.{concat, transfer, bytes_of}
use linux_coding.Myftp.Endless.{client_waits, Pieces}

abbrev list_queue : MsgQueue
list_queue = record {
  Queue = List Message;
  held = λ q. q;
  msgsnd = λ q m. some (q ++ (m ∷ []));
  msgrcv = λ q t. first_of t q;
  msgsnd-held = λ q r m e. cc;
  msgrcv-held = λ q t m ms e. (ms, e, refl);
  msgrcv-none = λ q t e. e;
}

sends : Sends list_queue
sends q m = (q ++ (m ∷ []), refl)

abbrev pieces : List (List ℕ)
pieces = (1 ∷ 2 ∷ []) ∷ (3 ∷ []) ∷ []

pieces_full : All (λ c. length c ≢ 0) pieces
pieces_full = (omega arith, (omega arith, tt))

nothing_held : packets_of [] ≡ []
unfolding packets_of
nothing_held = refl

transfer_example :
    (r : List Message) × (receive_loop list_queue
        (λ n. false)
        3
        (handle_file_request list_queue [] (some pieces))
        []
      ≡ some (waits r (concat pieces)))
    × (packets_of r ≡ [])
    × (others_of r ≡ others_of [] ++ (msg_eot ∷ []))
transfer_example =
    transfer list_queue (λ n. false) [] pieces 3 (λ n. refl) sends nothing_held pieces_full
      (omega arith)

-- Only the path 7 can be opened.
abbrev disk : List ℕ → Option (List (List ℕ))
disk [] = none
disk (x ∷ path) = some pieces

disk-Pieces : Pieces list_queue disk
disk-Pieces [] chunks e = absurd (let no : none ≢ some chunks = λ f. cc in no e)
disk-Pieces (x ∷ path) chunks e =
    let same : pieces ≡ chunks = cc in subst (All (λ c. length c ≢ 0)) same pieces_full

abbrev asked : List Message
asked = (send_path_request list_queue [] (7 ∷ [])).1

run : FtpSteps list_queue disk [] asked
run = and_then at_once (by_request (7 ∷ []))

asked_short : length (packets_of asked) < 1
unfolding packets_of send_path_request
asked_short = omega arith

-- The call of msgrcv with no fuel behind it fails.
abbrev last_fails : ℕ → Bool
last_fails zero = true
last_fails (suc n) = false

client_waits_example :
    ((s : List Message) × (receive_loop list_queue last_fails 1 asked []
        ≡ some (waits s ([] ++ bytes_of (packets_of asked))))
      × (packets_of s ≡ [])
      × (others_of s ≡ others_of asked))
    ⊎ ((n : ℕ) × (s : List Message) × (kept : List ℕ) × (last_fails n ≡ true)
        × (receive_loop list_queue last_fails 1 asked [] ≡ some (receive_failed s kept)))
client_waits_example =
    client_waits list_queue disk [] asked last_fails 1 [] disk-Pieces refl run asked_short
