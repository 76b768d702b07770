-- ===== src/Relay/Copy.antt =====
-- proIO/non-blocked/relayer/relayer.c: what a state machine writes is what it read.
use linux_coding.Common.{
  ℕ, ◌+◌, ◌≤◌, ◌<◌, ◌≡◌, refl, sym, ◌∙◌, List, [], ◌++◌, arith, length, append-nil, none, subst,
}
use linux_coding.Common.Int.{pos}
use linux_coding.Relay.{buf_size, State, r, w, ex, t, Fsm, ReadResult, WriteResult, fsm_driver}
use linux_coding.Relay.Flight.{
  ReadFits, WriteFits, bytes_in, bytes_out, Keeps, pending, InFlight, Copies, drive_at-Keeps,
}

fsm_driver-Keeps :
    (i : ReadResult) (o : WriteResult) (m : Fsm) (ins outs : List ℕ)
    → ReadFits i
    → WriteFits o m.len
    → Copies m ins outs
    → Keeps (fsm_driver i o m) ins outs
unfolding fsm_driver
fsm_driver-Keeps i o m ins outs fi fo c =
    drive_at-Keeps m.state i o m ins outs refl fi fo c.whole c.flight

-- A state machine as `rel_addjob` sets it up, with no error recorded yet.
pub record IsFresh (m : Fsm) : Type 0 where
  pub reading : m.state ≡ r
  pub room : length m.buf ≡ buf_size
  pub no_error : m.strerr ≡ none

-- The states that a machine gets to, with the bytes read and written so far, when the system calls
-- keep what they promise and give anything else.
pub data Relayed : Fsm → List ℕ → List ℕ → Type 0 where
  start : (m : Fsm) → IsFresh m → Relayed m [] []
  step :
      {m : Fsm} {ins outs : List ℕ} (i : ReadResult) (o : WriteResult)
      → ReadFits i
      → WriteFits o m.len
      → Relayed m ins outs
      → Relayed
          (fsm_driver i o m).0
          (ins ++ bytes_in (fsm_driver i o m).1)
          (outs ++ bytes_out (fsm_driver i o m).1)

Relayed-Copies : {m : Fsm} {ins outs : List ℕ} → Relayed m ins outs → Copies m ins outs
Relayed-Copies (start m f) = record {
  whole = f.room;
  flight = subst (λ x. InFlight x m [] []) (sym f.reading) (refl, f.no_error);
}
Relayed-Copies (step {m = m} {ins = ins} {outs = outs} i o fi fo k) =
    fsm_driver-Keeps i o m ins outs fi fo (Relayed-Copies k)

-- What the state says of the bytes.
pub record Delivered (m : Fsm) (ins outs : List ℕ) : Type 0 where
  pub in_order : (rest : List ℕ) × (ins ≡ outs ++ rest)
  pub all_read : m.state ≡ r → ins ≡ outs
  pub all_done : m.state ≡ t → m.strerr ≡ none → ins ≡ outs
  pub in_buffer : m.state ≡ w → (n : ℕ) × (m.len ≡ pos n) × (0 < n) × (m.offset + n ≤ length m.buf)

InFlight-Delivered :
    (st : State) (m : Fsm) (ins outs : List ℕ)
    → m.state ≡ st
    → length m.buf ≡ buf_size
    → InFlight st m ins outs
    → Delivered m ins outs
InFlight-Delivered r m ins outs st l (e, s) = record {
  in_order = ([], e ∙ sym (append-nil outs));
  all_read = λ h. e;
  all_done = λ h k. e;
  in_buffer = λ h. absurd (ground arith);
}
InFlight-Delivered w m ins outs st l (n, en, p, b, e, s) = record {
  in_order = (pending m n, e);
  all_read = λ h. absurd (ground arith);
  all_done = λ h k. absurd (ground arith);
  in_buffer = λ h. (n, en, p, omega arith);
}
InFlight-Delivered ex m ins outs st l (q, s) = record {
  in_order = q;
  all_read = λ h. absurd (ground arith);
  all_done = λ h k. absurd (ground arith);
  in_buffer = λ h. absurd (ground arith);
}
InFlight-Delivered t m ins outs st l (q, s) = record {
  in_order = q;
  all_read = λ h. absurd (ground arith);
  all_done = λ h k. s k;
  in_buffer = λ h. absurd (ground arith);
}

-- The relay copies. Whatever a machine's `read`s and `write`s come to (short counts, EAGAIN and
-- errors included): the bytes written are the first of those read, in order; they are all of those
-- read in STATE_R, and in STATE_T if no error was recorded; and in STATE_W len > 0 bytes are
-- left to write, all inside `buf`.
pub fsm_driver_copies : {m : Fsm} {ins outs : List ℕ} → Relayed m ins outs → Delivered m ins outs
fsm_driver_copies {m} {ins} {outs} k =
    let c = Relayed-Copies k in InFlight-Delivered m.state m ins outs refl c.whole c.flight
