-- ===== src/Tbf/Table.antt =====
-- mytbf/mytbf.c: `mytbf_init` and `mytbf_destroy` on the table of buckets.
use linux_coding.Common.{
  ℕ, zero, suc, ◌+◌, ◌<◌, ◌≡◌, ◌≢◌, ◌⊎◌, inl, inr, refl, ap, Bool, true, false, Option, none, some,
  List, [], ◌∷◌, arith, length, get_elem?, set, Option-cases, get_elem?-set_self, get_elem?-set_ne,
  get_elem?-eq_some-lt, set-set_back,
}
use linux_coding.Common.Int.{ℤ, pos, ◌≤ℤ◌}
use linux_coding.Tbf.{Bucket, Tbf, get_free_pos, mytbf_init, mytbf_destroy, bucket_at}
use linux_coding.Tbf.Rate.{IsValid}

free_pos-some :
    (js : List (Option Bucket)) (k : ℕ) {p : ℕ}
    → get_free_pos js k ≡ some p
    → (d : ℕ) × (p ≡ k + d) × (get_elem? js d ≡ some none)
unfolding get_free_pos
free_pos-some [] k h = cc
free_pos-some (none ∷ js) k h = (0, ground arith, refl)
free_pos-some (some b ∷ js) k h =
    let (d, e, free) = free_pos-some js (k + 1) h in (suc d, omega arith, free)

free_pos-none :
    (js : List (Option Bucket)) (k : ℕ)
    → get_free_pos js k ≡ none
    → (i : ℕ) → i < length js
    → get_elem? js i ≢ some none
unfolding get_free_pos
free_pos-none [] k h i lt = absurd (omega arith)
free_pos-none (none ∷ js) k h i lt = cc
free_pos-none (some b ∷ js) k h zero lt = λ e. cc
free_pos-none (some b ∷ js) k h (suc i) lt = free_pos-none js (k + 1) h i (omega arith)

-- The bucket that `mytbf_init` makes.
abbrev pub new_bucket : ℤ → ℤ → ℕ → Bucket
new_bucket cps burst p = record { cps = cps; burst = burst; token = pos 0; slot = p }

init_some :
    (memory : Bool) (cps burst : ℤ) (t : Tbf) {p : ℕ} {t' : Tbf}
    → mytbf_init memory cps burst t ≡ (some p, t')
    → (get_elem? t.job p ≡ some none)
      × (t' ≡ record { job = set t.job p (some (new_bucket cps burst p)); inited = true })
unfolding mytbf_init
init_some memory cps burst t {p} {t'} h = elim (Option-cases (get_free_pos t.job 0)) [
  | inl e ↦ absurd (ground arith)
  | inr (p', e) ↦
      let (d, pd, free) = free_pos-some t.job 0 e in
      let ep : d ≡ p = ground arith in (rw ep at free, ground arith)
]

-- `mytbf_init` that returns a bucket took a free slot for it, with no token in it, left every other
-- slot alone, and made it valid if `cps` and `burst` are not negative; `mytbf_destroy` of that
-- bucket then gives the table that there was before.
pub mytbf_destroy-init :
    (memory : Bool) (cps burst : ℤ) (t : Tbf) {p : ℕ} {t' : Tbf}
    → mytbf_init memory cps burst t ≡ (some p, t')
    → (get_elem? t.job p ≡ some none)
      × (bucket_at t' p ≡ some (new_bucket cps burst p))
      × ((i : ℕ) → p ≢ i → bucket_at t' i ≡ bucket_at t i)
      × (pos 0 ≤ℤ cps → pos 0 ≤ℤ burst → IsValid (new_bucket cps burst p))
      × (mytbf_destroy p t' ≡ some (record t { inited = true }))
unfolding bucket_at mytbf_destroy
mytbf_destroy-init memory cps burst t {p} {t'} h =
    let (free, e) = init_some memory cps burst t h in
    let b = new_bucket cps burst p in
    let here' : get_elem? t'.job p ≡ some (some b) =
      rw e (get_elem?-set_self t.job p (some b) (get_elem?-eq_some-lt t.job p free)) in
    let at : bucket_at t' p ≡ some b = rw (here', bucket_at) refl in
    (
      free,
      at,
      λ i ne. rw (e, bucket_at) (rw (get_elem?-set_ne t.job p i (some b) ne, bucket_at) refl),
      λ c u. omega arith,
      rw (at, mytbf_destroy)
          (rw e (
            ap (λ l. some (record t { inited = true; job = l }))
              (set-set_back t.job p (some b) free))),
    )

-- `mytbf_init` that gives NULL left every slot alone, and no slot was free or there was no memory.
pub mytbf_init_null :
    (memory : Bool) (cps burst : ℤ) (t : Tbf) {t' : Tbf}
    → mytbf_init memory cps burst t ≡ (none, t')
    → (t'.job ≡ t.job)
      × (((i : ℕ) → i < length t.job → get_elem? t.job i ≢ some none) ⊎ (memory ≡ false))
unfolding mytbf_init
mytbf_init_null memory cps burst t {t'} h = elim (Option-cases (get_free_pos t.job 0)) [
  | inl e ↦ (ground arith, inl (free_pos-none t.job 0 e))
  | inr (p, e) ↦ (ground arith, inr (ground arith))
]
