-- ===== src/Myftp/Saved.antt =====
-- What the client saves.
use linux_coding.Common.{
  ℕ, zero, suc, ◌<◌, ◌≡◌, ◌≢◌, refl, ap, ◌∙◌, arith, sym, Bool, true, false, Bool-cases, inl, inr,
  ◌⊎◌, Option, some, List, [], ◌∷◌, ◌++◌, map, append_assoc, append-nil, length, take, All, ◌==◌,
}
use linux_coding.Myftp.{
  msg_data, msg_eot, MsgQueue, Received, waits, receive_failed, receive_loop, handle_file_request,
}
use linux_coding.Myftp.Sent.{
  packets_of, others_of, whole, first_of-packets, first_of-no_packets, Sends,
  handle_file_request-held, packets_of-append, packets_of-chunks, others_of-append,
  others_of-chunks,
}

-- The bytes of packets, each cut to its `datalen`.
pub bytes_of : List (ℕ × List ℕ) → List ℕ
bytes_of [] = []
bytes_of ((datalen, content) ∷ packets) = take datalen content ++ bytes_of packets

pub concat : List (List ℕ) → List ℕ
concat [] = []
concat (chunk ∷ chunks) = chunk ++ concat chunks

take-whole : (xs : List ℕ) → take (length xs) xs ≡ xs
take-whole [] = refl
take-whole (x ∷ xs) = ap (λ ys. x ∷ ys) (take-whole xs)

pub bytes_of-whole : (chunks : List (List ℕ)) → bytes_of (map whole chunks) ≡ concat chunks
unfolding bytes_of concat
bytes_of-whole [] = refl
bytes_of-whole (chunk ∷ chunks) = rw (take-whole chunk, bytes_of-whole chunks) refl

-- No packet says that the file has ended.
abbrev pub NoEnd : List (ℕ × List ℕ) → Type 0
NoEnd packets = All (λ p. p.0 ≢ 0) packets

NoEnd-whole :
    (chunks : List (List ℕ)) → All (λ chunk. length chunk ≢ 0) chunks → NoEnd (map whole chunks)
NoEnd-whole [] full = tt
NoEnd-whole (chunk ∷ chunks) (h, full) = (h, NoEnd-whole chunks full)

length-whole : (chunks : List (List ℕ)) → length (map whole chunks) ≡ length chunks
length-whole [] = refl
length-whole (chunk ∷ chunks) = ap suc (length-whole chunks)

module _ (K : MsgQueue) where
  -- The client takes all data packets, and then waits with their bytes in its file.
  abbrev pub WaitsWith : K.Queue → List ℕ → Option (Received K.Queue) → Type 0
  WaitsWith q saved o =
      (r : K.Queue) × (o ≡ some (waits r saved))
      × (packets_of (K.held r) ≡ [])
      × (others_of (K.held r) ≡ others_of (K.held q))

  -- Or a call of msgrcv has failed.
  abbrev pub Failed : (ℕ → Bool) → Option (Received K.Queue) → Type 0
  Failed fails o =
      (n : ℕ) × (r : K.Queue) × (saved : List ℕ) × (fails n ≡ true)
      × (o ≡ some (receive_failed r saved))

  pub receive_loop-waits :
      (fails : ℕ → Bool) (ps : List (ℕ × List ℕ)) (fuel : ℕ) (q : K.Queue) (saved : List ℕ)
      → packets_of (K.held q) ≡ ps
      → NoEnd ps
      → length ps < fuel
      → WaitsWith q (saved ++ bytes_of ps) (receive_loop K fails fuel q saved)
        ⊎ Failed fails (receive_loop K fails fuel q saved)
  unfolding receive_loop bytes_of
  receive_loop-waits fails ps zero q saved h no_end enough = absurd (omega arith)
  receive_loop-waits fails [] (suc fuel) q saved h no_end enough = elim (Bool-cases (fails fuel)) [
    | inl e ↦ inr (fuel, q, saved, e, rw (e, receive_loop) refl)
    | inr e ↦
        let stops = K.msgrcv-none q 2 (first_of-no_packets (K.held q) h) in
        inl (q, rw (e, stops, append-nil saved, receive_loop) refl, h, refl)
  ]
  receive_loop-waits fails ((d, c) ∷ ps) (suc fuel) q saved h (more, no_end) enough =
      let found = first_of-packets (K.held q) d c ps h in
      let taken = K.msgrcv-held q 2 (msg_data d c) found.0 found.1 in
      let after = ap packets_of taken.2 ∙ found.2 in
      let goes_on : d == 0 ≡ false = ground arith in
      let rest =
        receive_loop-waits fails ps fuel taken.0 (saved ++ take d c) after no_end (omega arith) in
      elim (Bool-cases (fails fuel)) [
        | inl e ↦ inr (fuel, q, saved, e, rw (e, receive_loop) refl)
        | inr e ↦ elim rest [
          | inl ih ↦ inl (
            ih.0,
            rw (e, taken.1, receive_loop, goes_on)
                (ih.1
                  ∙ ap (λ xs. some (waits ih.0 xs)) (append_assoc saved (take d c) (bytes_of ps))),
            ih.2,
            ih.3 ∙ ap others_of taken.2 ∙ found.3,
          )
          | inr (n, r, last, f, ih) ↦ inr (n, r, last, f, rw (e, taken.1, receive_loop, goes_on) ih)
        ]
      ]

  -- Where msgrcv does not fail.
  receive_loop-saves :
      (fails : ℕ → Bool) (ps : List (ℕ × List ℕ)) (fuel : ℕ) (q : K.Queue) (saved : List ℕ)
      → ((n : ℕ) → fails n ≡ false)
      → packets_of (K.held q) ≡ ps
      → NoEnd ps
      → length ps < fuel
      → WaitsWith q (saved ++ bytes_of ps) (receive_loop K fails fuel q saved)
  receive_loop-saves fails ps fuel q saved never h no_end enough =
      elim (receive_loop-waits fails ps fuel q saved h no_end enough) [
        | inl saves ↦ saves
        | inr (n, r, last, f, _) ↦
            absurd (let no : false ≢ true = λ e. cc in no (sym (never n) ∙ f))
      ]

  -- After a request for a file that read returns as `chunks`, from a queue with no data packet left in
  -- it and with no call of msgsnd or msgrcv failing, the client has saved the whole file, its pieces in order,
  -- and it waits for ever: what the server sends last is a message that the client never takes, and
  -- that stays in the queue behind all that stood there before.
  pub transfer :
      (fails : ℕ → Bool) (q : K.Queue) (chunks : List (List ℕ)) (fuel : ℕ)
      → ((n : ℕ) → fails n ≡ false)
      → Sends K
      → packets_of (K.held q) ≡ []
      → All (λ chunk. length chunk ≢ 0) chunks
      → length chunks < fuel
      → (r : K.Queue) × (receive_loop K fails fuel (handle_file_request K q (some chunks)) []
          ≡ some (waits r (concat chunks)))
        × (packets_of (K.held r) ≡ [])
        × (others_of (K.held r) ≡ others_of (K.held q) ++ (msg_eot ∷ []))
  unfolding packets_of others_of
  transfer fails q chunks fuel never sends empty full enough =
      let held = handle_file_request-held K q chunks sends in
      let after = handle_file_request K q (some chunks) in
      let packets : packets_of (K.held after) ≡ map whole chunks =
        simp (held, packets_of-append, packets_of-chunks, empty, append-nil) refl in
      let others : others_of (K.held after) ≡ others_of (K.held q) ++ (msg_eot ∷ []) =
        simp (held, others_of-append, others_of-chunks, append-nil) refl in
      let len : length (map whole chunks) < fuel = omega (arith, length-whole chunks) in
      let waits_with =
        receive_loop-saves fails (map whole chunks) fuel after [] never packets
          (NoEnd-whole chunks full) len in
      (
        waits_with.0,
        waits_with.1 ∙ ap (λ xs. some (waits waits_with.0 xs)) (bytes_of-whole chunks),
        waits_with.2,
        waits_with.3 ∙ others,
      )
