-- ===== src/Tbf/Fetch.antt =====
-- mytbf/mytbf.c: `mytbf_fetch_token` as a whole call, its wait included.
use mathlib.Core.Option
use linux_coding.Common.{
  ℕ, zero, suc, ◌<◌, ◌≡◌, ◌⊎◌, inl, inr, refl, ap, ◌∙◌, subst, true, false, none, some, List, [],
  ◌∷◌, map, arith, get_elem?, replicate, wait_while-nil, wait_while-of_true, wait_while-of_false,
  Bool-cases, Option-cases, get_elem?-set_self, get_elem?-eq_some-lt,
}
use linux_coding.Common.Int.{
  ℤ, pos, ◌≤ℤ◌, ◌<ℤ◌, ◌+ℤ◌, leb_ℤ, ltb_ℤ, +ℤ_parts, one_part, eq_of_parts,
}
use linux_coding.Tbf.{
  Bucket, Tbf, Reply, tokens, refill, alrm_handler, take_tokens, bucket_at, lacks_token, put_bucket,
  fetch_ready, mytbf_fetch_token,
}
use linux_coding.Tbf.Rate.{IsValid, take_tokens_lem, refill_lem}

pub get_elem?-map {ℓ κ} :
    {A : Type ℓ} {B : Type κ} (f : A → B) (xs : List A) (i : ℕ)
    → get_elem? (map f xs) i ≡ Option.map f (get_elem? xs i)
get_elem?-map f [] i = refl
get_elem?-map f (x ∷ xs) zero = refl
get_elem?-map f (x ∷ xs) (suc i) = get_elem?-map f xs i

-- The bucket of a tick.
pub alrm-bucket_at :
    (t : Tbf) (p : ℕ) {b : Bucket}
    → bucket_at t p ≡ some b
    → bucket_at (alrm_handler t) p ≡ some (refill b)
unfolding bucket_at alrm_handler
alrm-bucket_at t p {b} h = ground (arith, get_elem?-map (Option.map refill) t.job p)

lacks_token_lem :
    (t : Tbf) (p : ℕ) {b : Bucket}
    → bucket_at t p ≡ some b
    → lacks_token p t ≡ leb_ℤ b.token (pos 0)
lacks_token_lem t p h = rw (h, lacks_token) refl

refill_pos :
    {b : Bucket} → IsValid b → pos 0 <ℤ b.cps → pos 0 <ℤ b.burst → pos 0 <ℤ (refill b).token
unfolding refill
refill_pos {b} v c h = ground (arith, +ℤ_parts b.token b.cps)

-- A bucket with nothing to come in, or no room, stays empty.
record Dry (b : Bucket) : Type 0 where
  valid : IsValid b
  stopped : (b.cps ≡ pos 0) ⊎ (b.burst ≡ pos 0)
  no_token : b.token ≡ pos 0

refill_dry :
    {b : Bucket}
    → IsValid b
    → (b.cps ≡ pos 0) ⊎ (b.burst ≡ pos 0)
    → b.token ≡ pos 0
    → (refill b).token ≡ pos 0
unfolding refill
refill_dry {b} v s e = ground (
  arith,
  +ℤ_parts b.token b.cps,
  eq_of_parts (b.token +ℤ b.cps) (pos 0),
  eq_of_parts b.burst (pos 0),
)

refill-Dry : {b : Bucket} → Dry b → Dry (refill b)
refill-Dry {b} d =
    let (v, _, c, u) = refill_lem d.valid in
    record {
      valid = v;
      stopped = elim d.stopped [ inl e ↦ inl (c ∙ e) | inr e ↦ inr (u ∙ e) ];
      no_token = refill_dry d.valid d.stopped d.no_token;
    }

-- What a fetch that is served has done.
pub record Served (p : ℕ) (size : ℤ) (b : Bucket) (t : Tbf) (r : Reply) (t' : Tbf) : Type 0 where
  pub n : ℤ
  pub reply : r ≡ tokens n
  pub some_tokens : pos 0 <ℤ n
  pub at_most : (n ≤ℤ size) × (n ≤ℤ b.burst)
  pub left : (b' : Bucket) × (bucket_at t' p ≡ some b') × IsValid b'

bucket_at-put :
    (t : Tbf) (p : ℕ) (b' : Bucket) {b : Bucket}
    → bucket_at t p ≡ some b
    → bucket_at (put_bucket p b' t) p ≡ some b'
unfolding bucket_at
bucket_at-put t p b' h = elim (Option-cases (get_elem? t.job p)) [
  | inl e ↦ absurd (ground arith)
  | inr (s, e) ↦
      rw (get_elem?-set_self t.job p (some b') (get_elem?-eq_some-lt t.job p e), bucket_at) refl
]

fetch_ready_lem :
    (t : Tbf) (p : ℕ) (size : ℤ) (b : Bucket)
    → bucket_at t p ≡ some b
    → IsValid b
    → pos 0 <ℤ size
    → pos 0 <ℤ b.token
    → (r : Reply) × (t' : Tbf) × (fetch_ready p size t ≡ some (r, t')) × Served p size b t r t'
unfolding fetch_ready
fetch_ready_lem t p size b h v s k =
    let (v', nonneg, sum, positive, le) = take_tokens_lem size v s in
    (
      tokens (take_tokens size b).0,
      put_bucket p (take_tokens size b).1 t,
      rw (h, fetch_ready) refl,
      record {
        n = (take_tokens size b).0;
        reply = refl;
        some_tokens = positive k;
        at_most = (
          le,
          omega (
            arith,
            sum,
            v.token_in,
            one_part b.token,
            one_part b.burst,
            one_part (take_tokens size b).0,
          ),
        );
        left = ((take_tokens size b).1, bucket_at-put t p (take_tokens size b).1 h, v');
      },
    )

fetch_at_once :
    (t : Tbf) (p : ℕ) (size : ℤ) (ticks : ℕ) (b : Bucket)
    → bucket_at t p ≡ some b
    → pos 0 <ℤ size
    → pos 0 <ℤ b.token
    → mytbf_fetch_token p size ticks t ≡ some (fetch_ready p size t)
unfolding mytbf_fetch_token
fetch_at_once t p size ticks b h s k =
    let awake : lacks_token p t ≡ false = lacks_token_lem t p h ∙ ground arith in
    ground (arith, wait_while-of_false (lacks_token p) (replicate ticks alrm_handler) t awake)

fetch_sleeps :
    (t : Tbf) (p : ℕ) (size : ℤ) (ticks : ℕ) (b : Bucket)
    → bucket_at t p ≡ some b
    → pos 0 <ℤ size
    → b.token ≤ℤ pos 0
    → (mytbf_fetch_token p size 0 t ≡ none)
      × (mytbf_fetch_token p size (suc ticks) t ≡ mytbf_fetch_token p size ticks (alrm_handler t))
unfolding mytbf_fetch_token
fetch_sleeps t p size ticks b h s k =
    let asleep : lacks_token p t ≡ true = lacks_token_lem t p h ∙ ground arith in
    ground (
      arith,
      wait_while-nil (lacks_token p) t asleep,
      wait_while-of_true (lacks_token p) alrm_handler (replicate ticks alrm_handler) t asleep,
    )

fetch_after_tick :
    (t : Tbf) (p : ℕ) (size : ℤ) (ticks : ℕ) (b : Bucket)
    → bucket_at t p ≡ some b
    → IsValid b
    → pos 0 <ℤ b.cps
    → pos 0 <ℤ b.burst
    → pos 0 <ℤ size
    → b.token ≤ℤ pos 0
    → 0 < ticks
    → (r : Reply) × (t' : Tbf) × (mytbf_fetch_token p size ticks t ≡ some (some (r, t')))
      × Served p size b t r t'
fetch_after_tick t p size zero b h v c u s dry k = absurd (omega arith)
fetch_after_tick t p size (suc ticks) b h v c u s dry k =
    let h' = alrm-bucket_at t p h in
    let (v', _, _, same) = refill_lem v in
    let more = refill_pos v c u in
    let (r, t', e, d) = fetch_ready_lem (alrm_handler t) p size (refill b) h' v' s more in
    (
      r,
      t',
      (fetch_sleeps t p size ticks b h s dry).1
          ∙ fetch_at_once (alrm_handler t) p size ticks (refill b) h' s more
          ∙ ap some e,
      record {
        n = d.n;
        reply = d.reply;
        some_tokens = d.some_tokens;
        at_most = (d.at_most.0, subst (λ x. d.n ≤ℤ x) same d.at_most.1);
        left = d.left;
      },
    )

-- `mytbf_fetch_token` of a positive size, on a bucket with `cps > 0`, `burst > 0` and
-- 0 <= token <= burst, returns at once or at the first tick: it gives at least 1 token and at most
-- `size` and `burst`, and leaves a bucket with 0 <= token <= burst.
pub mytbf_fetch_token-Served :
    (t : Tbf) (p : ℕ) (size : ℤ) (ticks : ℕ) (b : Bucket)
    → bucket_at t p ≡ some b
    → IsValid b
    → pos 0 <ℤ b.cps
    → pos 0 <ℤ b.burst
    → pos 0 <ℤ size
    → (0 < ticks) ⊎ (pos 0 <ℤ b.token)
    → (r : Reply) × (t' : Tbf) × (mytbf_fetch_token p size ticks t ≡ some (some (r, t')))
      × Served p size b t r t'
mytbf_fetch_token-Served t p size ticks b h v c u s k = elim (Bool-cases (ltb_ℤ (pos 0) b.token)) [
  | inl full ↦
      let more : pos 0 <ℤ b.token = ground arith in
      let (r, t', e, served) = fetch_ready_lem t p size b h v s more in
      (r, t', fetch_at_once t p size ticks b h s more ∙ ap some e, served)
  | inr dry ↦ fetch_after_tick t p size ticks b h v c u s (ground arith) (ground arith)
]

Dry-for_ever :
    (ticks : ℕ) (t : Tbf) (p : ℕ) (size : ℤ) (b : Bucket)
    → bucket_at t p ≡ some b
    → Dry b
    → pos 0 <ℤ size
    → mytbf_fetch_token p size ticks t ≡ none
Dry-for_ever zero t p size b h d s = (fetch_sleeps t p size 0 b h s (ground arith)).0
Dry-for_ever (suc ticks) t p size b h d s =
    (fetch_sleeps t p size ticks b h s (ground arith)).1
    ∙ Dry-for_ever ticks (alrm_handler t) p size (refill b) (alrm-bucket_at t p h) (refill-Dry d) s

-- `mytbf_init` takes `cps` = 0 and `burst` = 0 too: on such an empty bucket `mytbf_fetch_token` of a
-- positive size still waits after any number of ticks.
pub mytbf_fetch_token_hangs :
    (t : Tbf) (p : ℕ) (size : ℤ) (ticks : ℕ) (b : Bucket)
    → bucket_at t p ≡ some b
    → IsValid b
    → (b.cps ≡ pos 0) ⊎ (b.burst ≡ pos 0)
    → b.token ≡ pos 0
    → pos 0 <ℤ size
    → mytbf_fetch_token p size ticks t ≡ none
mytbf_fetch_token_hangs t p size ticks b h v c e s =
    Dry-for_ever ticks t p size b h (record { valid = v; stopped = c; no_token = e }) s
