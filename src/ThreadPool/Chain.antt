-- ===== src/ThreadPool/Chain.antt =====
-- IPC/socket/Newer/server.c: lists of nodes on the heap.
use linux_coding.Common.{
  ℕ, ◌≡◌, ◌≢◌, refl, sym, ap, ◌∙◌, Option, none, some, List, [], ◌∷◌, ◌++◌, All, arith,
}
use linux_coding.ThreadPool.{Task, TaskNode, Heap, write_node}

-- From the pointer `o` on stand the nodes `ns`, each an address and a task, all different.
abbrev pub Chain : Heap → Option ℕ → List (ℕ × Task) → Type 0
Chain h o [] = o ≡ none
Chain h o ((a, k) ∷ ns) =
    (o ≡ some a)
    × All (λ n. n.0 ≢ a) ns
    × (next : Option ℕ) × (h a ≡ some (record { task = k; next = next }))
    × Chain h next ns

abbrev pub last_node : List (ℕ × Task) → Option ℕ
last_node [] = none
last_node (n ∷ []) = some n.0
last_node (n ∷ m ∷ ns) = last_node (m ∷ ns)

pub write_self : (a : ℕ) (n : Option TaskNode) (h : Heap) → write_node a n h a ≡ n
write_self a n h = ground arith

pub write_ne : (a b : ℕ) (n : Option TaskNode) (h : Heap) → b ≢ a → write_node a n h b ≡ h b
write_ne a b n h d = ground arith

-- A write outside of the chain.
pub Chain-write :
    (h : Heap) (a : ℕ) (n : Option TaskNode) (o : Option ℕ) (ns : List (ℕ × Task))
    → All (λ m. m.0 ≢ a) ns
    → Chain h o ns
    → Chain (write_node a n h) o ns
Chain-write h a n o [] d c = c
Chain-write h a n o ((b, k) ∷ ns) (d, ds) (e, fresh, next, at, c) =
    (e, fresh, next, write_ne a b n h d ∙ at, Chain-write h a n next ns ds c)

no_node : {x : TaskNode} → none ≢ some x
no_node e = cc

-- An address with nothing at it is not in the chain.
pub Chain-fresh :
    (h : Heap) (a : ℕ) (o : Option ℕ) (ns : List (ℕ × Task))
    → h a ≡ none
    → Chain h o ns
    → All (λ m. m.0 ≢ a) ns
Chain-fresh h a o [] f c = tt
Chain-fresh h a o ((b, k) ∷ ns) f (e, fresh, next, at, c) =
    (λ q. no_node (sym f ∙ ap h (sym q) ∙ at), Chain-fresh h a next ns f c)

All-last :
    (a t : ℕ) (n : ℕ × Task) (ns : List (ℕ × Task))
    → All (λ m. m.0 ≢ a) (n ∷ ns)
    → last_node (n ∷ ns) ≡ some t
    → a ≢ t
All-last a t n [] (d, ds) e = λ q. d (let z : n.0 ≡ t = cc in z ∙ sym q)
All-last a t n (m ∷ ns) (d, ds) e = All-last a t m ns ds e

All-append :
    (a b : ℕ) (k : Task) (ns : List (ℕ × Task))
    → All (λ m. m.0 ≢ a) ns
    → b ≢ a
    → All (λ m. m.0 ≢ a) (ns ++ (b, k) ∷ [])
All-append a b k [] d e = (e, tt)
All-append a b k (n ∷ ns) (d, ds) e = (d, All-append a b k ns ds e)

-- A node written behind the last one.
pub Chain-append :
    (h : Heap) (a t : ℕ) (k : Task) (last : TaskNode) (o : Option ℕ) (n : ℕ × Task)
    (ns : List (ℕ × Task))
    → Chain h o (n ∷ ns)
    → All (λ m. m.0 ≢ a) (n ∷ ns)
    → last_node (n ∷ ns) ≡ some t
    → h t ≡ some last
    → h a ≡ some (record { task = k; next = none })
    → Chain (write_node t (some (record last { next = some a })) h) o ((n ∷ ns) ++ (a, k) ∷ [])
Chain-append h a t k last o (b, j) [] (e, fresh, next, at, c) (d, ds) el ht ha =
    let x = some (record last { next = some a }) in
    let same : b ≡ t = cc in
    let task : last.task ≡ j = cc in
    (
      e,
      ((λ q. d (sym q)), tt),
      some a,
      ap (write_node t x h) same
          ∙ write_self t x h
          ∙ ap (λ z. some (record { task = z; next = some a })) task,
      (refl, tt, none, write_ne t a x h (λ q. d (same ∙ sym q)) ∙ ha, refl),
    )
Chain-append h a t k last o (b, j) (m ∷ ns) (e, fresh, next, at, c) (d, ds) el ht ha =
    let x = some (record last { next = some a }) in
    (
      e,
      All-append b a k (m ∷ ns) fresh (λ q. d (sym q)),
      next,
      write_ne t b x h (All-last b t m ns fresh el) ∙ at,
      Chain-append h a t k last next m ns c ds el ht ha,
    )
