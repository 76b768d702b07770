-- ===== src/Relay/Flight.antt =====
-- proIO/non-blocked/relayer/relayer.c: the bytes on their way in each state.
use linux_coding.Common.{
  ℕ, ◌+◌, ◌-◌, ◌≤◌, ◌<◌, ◌≡◌, inl, inr, refl, sym, ap, ◌∙◌, List, [], ◌∷◌, ◌++◌, arith, length,
  take, drop, append_assoc, append-nil, length-append, length-drop, none, ◌≢◌, ap₂, take-add,
  drop-add, take-append_self, Bool-cases, subst,
}
use linux_coding.Common.Int.{ℤ, pos, ◌≤ℤ◌, ◌-ℤ◌, eqb_ℤ}
use linux_coding.Relay.{
  buf_size, State, r, w, ex, t, Fsm, ReadResult, got, read_again, read_failed, WriteResult, wrote,
  write_again, write_failed, Effect, received, sent, drive_read, drive_write, drive_at,
}

-- `read` gives at most BUFSIZE bytes, and `write` writes at most the `len` bytes it is asked for.
abbrev pub ReadFits : ReadResult → Type 0
ReadFits (got xs) = length xs ≤ buf_size
ReadFits _ = Unit

abbrev pub WriteFits : WriteResult → ℤ → Type 0
WriteFits (wrote ret) len = pos ret ≤ℤ len
WriteFits _ len = Unit

abbrev pub bytes_in : Effect → List ℕ
bytes_in (received xs) = xs
bytes_in _ = []

abbrev pub bytes_out : Effect → List ℕ
bytes_out (sent xs) = xs
bytes_out _ = []

-- The bytes that were read and are still to be written.
abbrev pub pending : Fsm → ℕ → List ℕ
pending m n = take n (drop m.offset m.buf)

-- What holds in each state, when `ins` was read so far and `outs` written.
abbrev pub InFlight : State → Fsm → List ℕ → List ℕ → Type 0
InFlight r m ins outs = (ins ≡ outs) × (m.strerr ≡ none)
InFlight w m ins outs =
    (n : ℕ) × (m.len ≡ pos n)
    × (0 < n)
    × (m.offset + n ≤ buf_size)
    × (ins ≡ outs ++ pending m n)
    × (m.strerr ≡ none)
InFlight ex m ins outs = ((rest : List ℕ) × (ins ≡ outs ++ rest)) × (m.strerr ≢ none)
InFlight t m ins outs = ((rest : List ℕ) × (ins ≡ outs ++ rest)) × (m.strerr ≡ none → ins ≡ outs)

pub record Copies (m : Fsm) (ins outs : List ℕ) : Type 0 where
  pub whole : length m.buf ≡ buf_size
  pub flight : InFlight m.state m ins outs

-- What is left behind `ret` of `n` bytes.
pending-split :
    (m : Fsm) (ret n : ℕ)
    → ret ≤ n
    → pending m n ≡ take ret (drop m.offset m.buf) ++ take (n - ret) (drop (m.offset + ret) m.buf)
pending-split m ret n le =
    let e : n ≡ ret + (n - ret) = omega arith in
    ap (λ k. take k (drop m.offset m.buf)) e
    ∙ take-add ret (n - ret) (drop m.offset m.buf)
    ∙ ap (λ l. take ret (drop m.offset m.buf) ++ take (n - ret) l)
        (sym (drop-add m.offset ret m.buf))

-- The outcome of a step, with what it read and wrote added on.
abbrev pub Keeps : (Fsm × Effect) → List ℕ → List ℕ → Type 0
Keeps (m, e) ins outs = Copies m (ins ++ bytes_in e) (outs ++ bytes_out e)

drive_read-Keeps :
    (i : ReadResult) (m : Fsm) (ins outs : List ℕ)
    → ReadFits i
    → length m.buf ≡ buf_size
    → InFlight r m ins outs
    → Keeps (drive_read i m) ins outs
unfolding drive_read
drive_read-Keeps (got []) m ins outs fits l (e, s) =
    let nil = append-nil ins in
    let nil' = append-nil outs in
    record {
      whole = l;
      flight = (([], ap (λ x. x ++ []) (e ∙ sym nil')), λ h. ap (λ x. x ++ []) e);
    }
drive_read-Keeps (got (x ∷ xs)) m ins outs fits l (e, s) = record {
  whole = omega (
    arith,
    length-append (x ∷ xs) (drop (length (x ∷ xs)) m.buf),
    length-drop (length (x ∷ xs)) m.buf,
  );
  flight = (
    length (x ∷ xs),
    refl,
    omega arith,
    omega arith,
    ap₂ ◌++◌ (e ∙ sym (append-nil outs))
        (sym (take-append_self (x ∷ xs) (drop (length (x ∷ xs)) m.buf))),
    s,
  );
}
drive_read-Keeps read_again m ins outs fits l (e, s) = record {
  whole = l;
  flight = (ap (λ x. x ++ []) e, s);
}
drive_read-Keeps read_failed m ins outs fits l (e, s) = record {
  whole = l;
  flight = (([], ap (λ x. x ++ []) (e ∙ sym (append-nil outs))), λ h. cc);
}

sub_pos : (n k : ℕ) → k ≤ n → pos n -ℤ pos k ≡ pos (n - k)
unfolding ◌-ℤ◌
sub_pos n k h = ground arith

drive_write-Keeps :
    (o : WriteResult) (m : Fsm) (ins outs : List ℕ)
    → WriteFits o m.len
    → length m.buf ≡ buf_size
    → m.state ≡ w
    → InFlight w m ins outs
    → Keeps (drive_write o m) ins outs
unfolding drive_write
drive_write-Keeps (wrote ret) m ins outs fits l st (n, en, pos_n, inside, e, s) =
    let le : ret ≤ n =
      (let fit : pos ret ≤ℤ pos n = subst (λ x. pos ret ≤ℤ x) en fits in omega arith) in
    let left : m.len -ℤ pos ret ≡ pos (n - ret) = ap (λ x. x -ℤ pos ret) en ∙ sub_pos n ret le in
    let took = take ret (drop m.offset m.buf) in
    let flow : ins ++ [] ≡ (outs ++ took) ++ take (n - ret) (drop (m.offset + ret) m.buf) =
      append-nil ins
      ∙ e
      ∙ ap (λ l'. outs ++ l') (pending-split m ret n le)
      ∙ sym (append_assoc outs took (take (n - ret) (drop (m.offset + ret) m.buf))) in
    elim (Bool-cases (eqb_ℤ (pos (n - ret)) (pos 0))) [
      | inl done ↦
          let z : n - ret ≡ 0 = ground arith in
          rw (left, done)
            (record {
              whole = l;
              flight = (
                flow
                    ∙ ap (λ k. (outs ++ took) ++ take k (drop (m.offset + ret) m.buf)) z
                    ∙ append-nil (outs ++ took),
                s,
              );
            })
      | inr more ↦
          rw (left, more)
            (record { whole = l; flight = (n - ret, refl, ground arith, omega arith, flow, s) })
    ]
drive_write-Keeps write_again m ins outs fits l st (n, en, pos_n, inside, e, s) = record {
  whole = l;
  flight = (
    n,
    en,
    pos_n,
    inside,
    append-nil ins ∙ e ∙ ap (λ x. x ++ pending m n) (sym (append-nil outs)),
    s,
  );
}
drive_write-Keeps write_failed m ins outs fits l st (n, en, pos_n, inside, e, s) = record {
  whole = l;
  flight = (
    (pending m n, append-nil ins ∙ e ∙ ap (λ x. x ++ pending m n) (sym (append-nil outs))),
    λ h. cc,
  );
}

pub drive_at-Keeps :
    (st : State) (i : ReadResult) (o : WriteResult) (m : Fsm) (ins outs : List ℕ)
    → m.state ≡ st
    → ReadFits i
    → WriteFits o m.len
    → length m.buf ≡ buf_size
    → InFlight st m ins outs
    → Keeps (drive_at st i o m) ins outs
unfolding drive_at
drive_at-Keeps r i o m ins outs st fi fo l f = drive_read-Keeps i m ins outs fi l f
drive_at-Keeps w i o m ins outs st fi fo l f = drive_write-Keeps o m ins outs fo l st f
drive_at-Keeps ex i o m ins outs st fi fo l ((rest, e), s) = record {
  whole = l;
  flight =
      ((rest, append-nil ins ∙ e ∙ ap (λ x. x ++ rest) (sym (append-nil outs))), λ h. absurd (s h));
}
drive_at-Keeps t i o m ins outs st fi fo l ((rest, e), s) =
    rw (append-nil ins, append-nil outs)
      (record { whole = l; flight = subst (λ x. InFlight x m ins outs) (sym st) ((rest, e), s) })
