-- ===== src/Myftp/Sent.antt =====
-- The packets that stand in the queue, and what the server adds to them.
use linux_coding.Common.{
  ℕ, ◌≡◌, ◌≢◌, ◌⊎◌, inl, inr, refl, sym, ap, ◌∙◌, true, some, none, List, [], ◌∷◌, ◌++◌, map,
  append_assoc, append-nil, length,
}
use linux_coding.Myftp.{
  Message, msg_path, msg_data, msg_eot, mtype, first_of, MsgQueue, send_data_packet,
  send_eot_packet, send_chunks, handle_file_request,
}

-- The data packets, each with its `datalen`.
unfoldable pub packets_of : List Message → List (ℕ × List ℕ)
packets_of [] = []
packets_of (msg_data datalen content ∷ ms) = (datalen, content) ∷ packets_of ms
packets_of (msg_path path ∷ ms) = packets_of ms
packets_of (msg_eot ∷ ms) = packets_of ms

unfoldable pub others_of : List Message → List Message
others_of [] = []
others_of (msg_data datalen content ∷ ms) = others_of ms
others_of (msg_path path ∷ ms) = msg_path path ∷ others_of ms
others_of (msg_eot ∷ ms) = msg_eot ∷ others_of ms

-- The packet of a piece of the file.
abbrev pub whole : List ℕ → ℕ × List ℕ
whole chunk = (length chunk, chunk)

pub packets_of-append :
    (ms ns : List Message) → packets_of (ms ++ ns) ≡ packets_of ms ++ packets_of ns
unfolding packets_of
packets_of-append [] ns = refl
packets_of-append (msg_data datalen content ∷ ms) ns =
    ap (λ ps. (datalen, content) ∷ ps) (packets_of-append ms ns)
packets_of-append (msg_path path ∷ ms) ns = packets_of-append ms ns
packets_of-append (msg_eot ∷ ms) ns = packets_of-append ms ns

pub others_of-append : (ms ns : List Message) → others_of (ms ++ ns) ≡ others_of ms ++ others_of ns
unfolding others_of
others_of-append [] ns = refl
others_of-append (msg_data datalen content ∷ ms) ns = others_of-append ms ns
others_of-append (msg_path path ∷ ms) ns = ap (λ os. msg_path path ∷ os) (others_of-append ms ns)
others_of-append (msg_eot ∷ ms) ns = ap (λ os. msg_eot ∷ os) (others_of-append ms ns)

cons_nil : {x : ℕ × List ℕ} {xs : List (ℕ × List ℕ)} → x ∷ xs ≢ []
cons_nil e = cc

-- The first data packet, if there is one.
abbrev pub First : List Message → Type 0
First ms =
    ((first_of 2 ms ≡ none) × (packets_of ms ≡ []))
    ⊎ ((d : ℕ) × (c : List ℕ) × (rest : List Message) × (first_of 2 ms ≡ some (msg_data d c, rest))
        × (packets_of ms ≡ (d, c) ∷ packets_of rest)
        × (others_of rest ≡ others_of ms))

pub msgrcv_cases : (ms : List Message) → First ms
unfolding first_of mtype packets_of others_of
msgrcv_cases [] = inl (refl, refl)
msgrcv_cases (msg_data d c ∷ ms) = inr (d, c, ms, refl, refl, refl)
msgrcv_cases (msg_path path ∷ ms) = elim (msgrcv_cases ms) [
  | inl (e, p) ↦ inl (rw e refl, p)
  | inr (d, c, rest, e, p, o) ↦
      inr (d, c, msg_path path ∷ rest, rw e refl, p, ap (λ os. msg_path path ∷ os) o)
]
msgrcv_cases (msg_eot ∷ ms) = elim (msgrcv_cases ms) [
  | inl (e, p) ↦ inl (rw e refl, p)
  | inr (d, c, rest, e, p, o) ↦ inr (d, c, msg_eot ∷ rest, rw e refl, p, ap (λ os. msg_eot ∷ os) o)
]

-- msgrcv of MSG_DATA finds the packets in order.
pub first_of-packets :
    (ms : List Message) (d : ℕ) (c : List ℕ) (ps : List (ℕ × List ℕ))
    → packets_of ms ≡ (d, c) ∷ ps
    → (rest : List Message) × (first_of 2 ms ≡ some (msg_data d c, rest))
      × (packets_of rest ≡ ps)
      × (others_of rest ≡ others_of ms)
first_of-packets ms d c ps h = elim (msgrcv_cases ms) [
  | inl (e, p) ↦ absurd (cons_nil (sym h ∙ p))
  | inr (d', c', rest, e, p, o) ↦
      let same : (d', c') ∷ packets_of rest ≡ (d, c) ∷ ps = sym p ∙ h in (rest, cc, cc, o)
]

pub first_of-no_packets : (ms : List Message) → packets_of ms ≡ [] → first_of 2 ms ≡ none
first_of-no_packets ms h = elim (msgrcv_cases ms) [
  | inl (e, p) ↦ e
  | inr (d, c, rest, e, p, o) ↦ absurd (cons_nil (sym p ∙ h))
]

module _ (K : MsgQueue) where
  -- No call of msgsnd fails.
  abbrev pub Sends : Type 0
  Sends = (q : K.Queue) (m : Message) → (r : K.Queue) × (K.msgsnd q m ≡ some r)

  pub send_data_packet-held :
      (q : K.Queue) (c : List ℕ) (n : ℕ)
      → Sends
      → (r : K.Queue) × (send_data_packet K q c n ≡ (true, r))
        × (K.held r ≡ K.held q ++ (msg_data n c ∷ []))
  unfolding send_data_packet
  send_data_packet-held q c n sends =
      let sent = sends q (msg_data n c) in
      (sent.0, rw (sent.1, send_data_packet) refl, K.msgsnd-held q sent.0 (msg_data n c) sent.1)

  pub send_eot_packet-held :
      (q : K.Queue) → Sends → K.held ((send_eot_packet K q).1) ≡ K.held q ++ (msg_eot ∷ [])
  unfolding send_eot_packet
  send_eot_packet-held q sends =
      let sent = sends q msg_eot in
      rw (sent.1, send_eot_packet) (K.msgsnd-held q sent.0 msg_eot sent.1)

  pub send_chunks-held :
      (q : K.Queue) (chunks : List (List ℕ))
      → Sends
      → K.held (send_chunks K q chunks) ≡ K.held q ++ map (λ c. msg_data (length c) c) chunks
  unfolding send_chunks
  send_chunks-held q [] sends = sym (append-nil (K.held q))
  send_chunks-held q (chunk ∷ chunks) sends =
      let sent = send_data_packet-held q chunk (length chunk) sends in
      let rest = send_chunks-held sent.0 chunks sends in
      let packet = msg_data (length chunk) chunk in
      rw sent.1 (
        rest
        ∙ ap (λ ms. ms ++ map (λ c. msg_data (length c) c) chunks) sent.2
        ∙ append_assoc (K.held q) (packet ∷ []) (map (λ c. msg_data (length c) c) chunks))

  -- What one request adds to the queue.
  pub handle_file_request-held :
      (q : K.Queue) (chunks : List (List ℕ))
      → Sends
      → K.held (handle_file_request K q (some chunks))
        ≡ (K.held q ++ map (λ c. msg_data (length c) c) chunks) ++ (msg_eot ∷ [])
  unfolding handle_file_request
  handle_file_request-held q chunks sends =
      send_eot_packet-held (send_chunks K q chunks) sends
      ∙ ap (λ ms. ms ++ (msg_eot ∷ [])) (send_chunks-held q chunks sends)

pub packets_of-chunks :
    (chunks : List (List ℕ))
    → packets_of (map (λ c. msg_data (length c) c) chunks) ≡ map whole chunks
unfolding packets_of
packets_of-chunks [] = refl
packets_of-chunks (chunk ∷ chunks) = ap (λ ps. whole chunk ∷ ps) (packets_of-chunks chunks)

pub others_of-chunks :
    (chunks : List (List ℕ)) → others_of (map (λ c. msg_data (length c) c) chunks) ≡ []
unfolding others_of
others_of-chunks [] = refl
others_of-chunks (chunk ∷ chunks) = others_of-chunks chunks
