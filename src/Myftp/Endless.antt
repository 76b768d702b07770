-- ===== src/Myftp/Endless.antt =====
-- No packet of the server makes a client return.
use linux_coding.Common.{
  ℕ, ◌-◌, ◌<◌, ◌≡◌, ◌≢◌, inl, inr, refl, sym, ◌∙◌, subst, arith, Bool-cases, Bool, true, ◌⊎◌,
  Option, some, none, List, [], ◌∷◌, ◌++◌, length, take, All, ◌==◌, Option-cases,
}
use linux_coding.Myftp.{
  Message, msg_path, msg_data, msg_eot, mtype, first_of, MsgQueue, waits, receive_failed,
  receive_loop, send_data_packet, send_eot_packet, send_chunks, handle_file_request, server_round,
  send_path_request, path_max, FtpStep, by_request, by_server, by_client, FtpSteps, at_once,
  and_then,
}
use linux_coding.Myftp.Sent.{packets_of, others_of}
use linux_coding.Myftp.Saved.{NoEnd, bytes_of, receive_loop-waits}

-- No packet in the list says that the file has ended.
abbrev pub Endless : List Message → Type 0
Endless ms = NoEnd (packets_of ms)

Endless-append : (ms ns : List Message) → Endless ms → Endless ns → Endless (ms ++ ns)
unfolding packets_of
Endless-append [] ns h k = k
Endless-append (msg_data d c ∷ ms) ns (x, h) k = (x, Endless-append ms ns h k)
Endless-append (msg_path path ∷ ms) ns h k = Endless-append ms ns h k
Endless-append (msg_eot ∷ ms) ns h k = Endless-append ms ns h k

Endless-cons :
    (m : Message) (ms rest : List Message)
    → (Endless ms → Endless rest)
    → Endless (m ∷ ms)
    → Endless (m ∷ rest)
unfolding packets_of
Endless-cons (msg_data d c) ms rest f (x, h) = (x, f h)
Endless-cons (msg_path path) ms rest f h = f h
Endless-cons msg_eot ms rest f h = f h

Endless-tail : (m : Message) (ms : List Message) → Endless (m ∷ ms) → Endless ms
unfolding packets_of
Endless-tail (msg_data d c) ms (x, h) = h
Endless-tail (msg_path path) ms h = h
Endless-tail msg_eot ms h = h

-- Taking a message of any type out.
first_of-Endless :
    (t : ℕ) (ms : List Message) (m : Message) (rest : List Message)
    → first_of t ms ≡ some (m, rest)
    → Endless ms
    → Endless rest
unfolding first_of
first_of-Endless t [] m rest e h = ground arith
first_of-Endless t (n ∷ ms) m rest e h = elim (Bool-cases (mtype n == t)) [
  | inl here ↦ let same : ms ≡ rest = ground arith in subst Endless same (Endless-tail n ms h)
  | inr later ↦ elim (Option-cases (first_of t ms)) [
    | inl nothing ↦ ground arith
    | inr ((found, left), f) ↦
        let same : n ∷ left ≡ rest = ground arith in
        subst Endless same (Endless-cons n ms left (first_of-Endless t ms found left f) h)
  ]
]

none-some : {A : Type 0} {x : A} → none ≢ some x
none-some e = cc

module _ (K : MsgQueue) where
  msgrcv-Endless :
      (q r : K.Queue) (t : ℕ) (m : Message)
      → K.msgrcv q t ≡ some (m, r)
      → Endless (K.held q)
      → Endless (K.held r)
  msgrcv-Endless q r t m e h = elim (Option-cases (first_of t (K.held q))) [
    | inl nothing ↦
        let waits_on = K.msgrcv-none q t nothing in absurd (none-some (sym waits_on ∙ e))
    | inr ((found, left), f) ↦
        let taken = K.msgrcv-held q t found left f in
        let same : taken.0 ≡ r = cc in
        let h_left : Endless left = first_of-Endless t (K.held q) found left f h in
        subst (λ x. Endless (K.held x)) same (subst Endless (sym taken.2) h_left)
  ]

  msgsnd-Endless :
      (q r : K.Queue) (m : Message)
      → K.msgsnd q m ≡ some r
      → Endless (m ∷ [])
      → Endless (K.held q)
      → Endless (K.held r)
  msgsnd-Endless q r m e one h =
      subst Endless (sym (K.msgsnd-held q r m e)) (Endless-append (K.held q) (m ∷ []) h one)

  send_data-Endless :
      (q : K.Queue) (c : List ℕ)
      → length c ≢ 0
      → Endless (K.held q)
      → Endless (K.held ((send_data_packet K q c (length c)).1))
  unfolding send_data_packet packets_of
  send_data-Endless q c full h = elim (Option-cases (K.msgsnd q (msg_data (length c) c))) [
    | inl fails ↦ rw (fails, send_data_packet) h
    | inr (r, e) ↦
        rw (e, send_data_packet) (msgsnd-Endless q r (msg_data (length c) c) e (full, tt) h)
  ]

  send_eot-Endless : (q : K.Queue) → Endless (K.held q) → Endless (K.held ((send_eot_packet K q).1))
  unfolding send_eot_packet packets_of
  send_eot-Endless q h = elim (Option-cases (K.msgsnd q msg_eot)) [
    | inl fails ↦ rw (fails, send_eot_packet) h
    | inr (r, e) ↦ rw (e, send_eot_packet) (msgsnd-Endless q r msg_eot e tt h)
  ]

  send_path-Endless :
      (q : K.Queue) (path : List ℕ)
      → Endless (K.held q)
      → Endless (K.held ((send_path_request K q path).1))
  unfolding send_path_request packets_of
  send_path-Endless q path h =
      elim (Option-cases (K.msgsnd q (msg_path (take (path_max - 1) path)))) [
        | inl fails ↦ rw (fails, send_path_request) h
        | inr (r, e) ↦
            rw (e, send_path_request)
              (msgsnd-Endless q r (msg_path (take (path_max - 1) path)) e tt h)
      ]

  -- What open and read make of a path: pieces that are not empty.
  abbrev pub Pieces : (List ℕ → Option (List (List ℕ))) → Type 0
  Pieces disk =
      (path : List ℕ) (chunks : List (List ℕ))
      → disk path ≡ some chunks
      → All (λ c. length c ≢ 0) chunks

  send_chunks-Endless :
      (q : K.Queue) (chunks : List (List ℕ))
      → All (λ c. length c ≢ 0) chunks
      → Endless (K.held q)
      → Endless (K.held (send_chunks K q chunks))
  unfolding send_chunks
  send_chunks-Endless q [] full h = h
  send_chunks-Endless q (chunk ∷ chunks) (f, full) h =
      let sent = send_data_packet K q chunk (length chunk) in
      let here : Endless (K.held sent.1) = send_data-Endless q chunk f h in
      elim (Bool-cases sent.0) [
        | inl went ↦ rw (went, send_chunks) (send_chunks-Endless sent.1 chunks full here)
        | inr failed ↦ rw (failed, send_chunks) here
      ]

  handle-Endless :
      (disk : List ℕ → Option (List (List ℕ)))
      → Pieces disk
      → (q : K.Queue) (path : List ℕ) → Endless (K.held q)
      → Endless (K.held (handle_file_request K q (disk path)))
  unfolding handle_file_request
  handle-Endless disk pieces q path h = elim (Option-cases (disk path)) [
    | inl fails ↦ rw fails (send_eot-Endless q h)
    | inr (chunks, e) ↦ rw e (
        send_eot-Endless (send_chunks K q chunks)
          (send_chunks-Endless q chunks (pieces path chunks e) h))
  ]

  server_taken :
      (disk : List ℕ → Option (List (List ℕ)))
      → Pieces disk
      → (q r s : K.Queue) (m : Message) → K.msgrcv q 1 ≡ some (m, s)
      → server_round K disk q ≡ some r
      → Endless (K.held q)
      → Endless (K.held r)
  unfolding server_round
  server_taken disk pieces q r s (msg_path path) f e h =
      let round : server_round K disk q ≡ some (handle_file_request K s (disk path)) =
        rw (f, server_round) refl in
      let same : handle_file_request K s (disk path) ≡ r = cc in
      subst (λ x. Endless (K.held x)) same
        (handle-Endless disk pieces s path (msgrcv-Endless q s 1 (msg_path path) f h))
  server_taken disk pieces q r s (msg_data d c) f e h = absurd (
      none-some
        (let stuck : server_round K disk q ≡ none = rw (f, server_round) refl in sym stuck ∙ e))
  server_taken disk pieces q r s (msg_eot) f e h = absurd (
      none-some
        (let stuck : server_round K disk q ≡ none = rw (f, server_round) refl in sym stuck ∙ e))

  server_round-Endless :
      (disk : List ℕ → Option (List (List ℕ)))
      → Pieces disk
      → (q r : K.Queue) → server_round K disk q ≡ some r
      → Endless (K.held q)
      → Endless (K.held r)
  unfolding server_round
  server_round-Endless disk pieces q r e h = elim (Option-cases (K.msgrcv q 1)) [
    | inl waits_on ↦ absurd (
        none-some (
          let stuck : server_round K disk q ≡ none = rw (waits_on, server_round) refl in
          sym stuck ∙ e))
    | inr ((m, s), f) ↦ server_taken disk pieces q r s m f e h
  ]

  FtpStep-Endless :
      (disk : List ℕ → Option (List (List ℕ)))
      → Pieces disk
      → {q r : K.Queue} → FtpStep K disk q r
      → Endless (K.held q)
      → Endless (K.held r)
  FtpStep-Endless disk pieces {q = q} (by_request path) h = send_path-Endless q path h
  FtpStep-Endless disk pieces {q = q} {r = r} (by_server e) h =
      server_round-Endless disk pieces q r e h
  FtpStep-Endless disk pieces {q = q} {r = r} (by_client m e) h = msgrcv-Endless q r 2 m e h

  FtpSteps-Endless :
      (disk : List ℕ → Option (List (List ℕ)))
      → Pieces disk
      → {q r : K.Queue} → FtpSteps K disk q r
      → Endless (K.held q)
      → Endless (K.held r)
  FtpSteps-Endless disk pieces at_once h = h
  FtpSteps-Endless disk pieces (and_then {r = r} {s = s} before step) h =
      let ih = FtpSteps-Endless disk pieces before h in FtpStep-Endless disk pieces step ih

  -- Whatever clients and server have done since the queue was empty, and whether or not the server
  -- could open the files, a client that receives now never comes to the end of its loop: it saves the
  -- packets that stand in the queue and then waits, or a call of msgrcv fails and it returns -1.
  pub client_waits :
      (disk : List ℕ → Option (List (List ℕ))) (q r : K.Queue) (fails : ℕ → Bool) (fuel : ℕ)
      (saved : List ℕ)
      → Pieces disk
      → K.held q ≡ []
      → FtpSteps K disk q r
      → length (packets_of (K.held r)) < fuel
      → ((s : K.Queue) × (receive_loop K fails fuel r saved
            ≡ some (waits s (saved ++ bytes_of (packets_of (K.held r)))))
          × (packets_of (K.held s) ≡ [])
          × (others_of (K.held s) ≡ others_of (K.held r)))
        ⊎ ((n : ℕ) × (s : K.Queue) × (kept : List ℕ) × (fails n ≡ true)
            × (receive_loop K fails fuel r saved ≡ some (receive_failed s kept)))
  unfolding packets_of
  client_waits disk q r fails fuel saved pieces empty steps enough =
      let none_yet : Endless (K.held q) = subst Endless (sym empty) tt in
      receive_loop-waits K fails (packets_of (K.held r)) fuel r saved refl
        (FtpSteps-Endless disk pieces steps none_yet) enough
