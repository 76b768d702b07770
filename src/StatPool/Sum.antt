-- ===== src/StatPool/Sum.antt =====
-- homework/statistic_file_with_thread_pool.c: what is counted, queued, in the hands of workers and
-- lost has one sum, whatever step comes next.
use linux_coding.Common.{
  ℕ, ◌+◌, ◌≡◌, inl, inr, sym, ap, subst, List, [], ◌∷◌, ◌++◌, arith, Bool-cases,
}
use linux_coding.StatPool.{PathName, FileSystem, Counts, is_dot, full_path, visit_path, visit}
use linux_coding.StatPool.Circle.{Holds}
use linux_coding.StatPool.Calls.{dequeue_task_inv, enqueue_task_inv, set_done-Holds}
use linux_coding.StatPool.Scan.{
  Worker, System, Moves, first, later, Step, take, entry, put, drop, closedir, done, Runs, here,
  more, sum_paths, sum_paths-append, entry_total, entries_total, IsTotal,
}

module _ (fs : FileSystem) (value W : PathName → ℕ) (counted : Counts → ℕ) where
  abbrev pub worker_total : Worker → ℕ
  worker_total w = entries_total fs value W w.dir_name w.entries + sum_paths W w.copies

  abbrev pub workers_total : List Worker → ℕ
  workers_total [] = 0
  workers_total (w ∷ ws) = worker_total w + workers_total ws

  -- Where one worker moves, the sum changes as that worker's part.
  workers_total-Moves :
      {P : Worker → Worker → Type 0} {ws ws' : List Worker} (a b : ℕ)
      → ((v w : Worker) → P v w → (worker_total v ≡ a) × (worker_total w ≡ b))
      → Moves P ws ws'
      → workers_total ws + b ≡ workers_total ws' + a
  workers_total-Moves a b h (first {v} {w} {ws} p) = let (e, f) = h v w p in omega arith
  workers_total-Moves a b h (later m) = let e = workers_total-Moves a b h m in omega arith

  -- What is counted, queued, in the hands of workers and lost.
  pub record Sum (all : ℕ) (s : System) : Type 0 where
    pub queued : List PathName
    pub holds : Holds s.queue queued
    pub adds :
        counted s.counts + sum_paths W queued + workers_total s.workers + sum_paths W s.lost ≡ all

  module _ (total : IsTotal fs value W)
      (law : (path : PathName) (c : Counts)
        → let (c', copies) = visit_path fs path c in
          counted c' + sum_paths W copies ≡ counted c + entry_total fs value W path) where
    visit_total :
        (dir d_name : PathName) (names : List PathName) (c : Counts)
        → counted (visit fs dir d_name c).0
            + sum_paths W (visit fs dir d_name c).1
            + entries_total fs value W dir names
          ≡ counted c + entries_total fs value W dir (d_name ∷ names)
    unfolding visit
    visit_total dir d_name names c = elim (Bool-cases (is_dot d_name)) [
      | inl e ↦ rw e (omega arith)
      | inr e ↦ let l = law (full_path dir d_name) c in rw e (omega arith)
    ]

    Step-Sum : {all : ℕ} {s t : System} → Step fs s t → Sum all s → Sum all t
    Step-Sum {all} {s} {t} (take path e m c l) k =
        let (rest, ep, h) = dequeue_task_inv k.queued k.holds e in
        let a = k.adds in
        let tp = total path in
        let d =
          workers_total-Moves 0 (W path)
            (λ v w p. (ap worker_total p.0, let f = ap worker_total p.1 in omega arith)) m in
        let ec = ap counted c in
        let el = ap (sum_paths W) l in
        let eq = ap (sum_paths W) ep in record { queued = rest; holds = h; adds = omega arith }
    Step-Sum {all} {s} {t} (entry dir d_name names m c q l) k =
        let a = k.adds in
        let b = visit_total dir d_name names s.counts in
        let d =
          workers_total-Moves (entries_total fs value W dir (d_name ∷ names) + 0)
            (entries_total fs value W dir names + sum_paths W (visit fs dir d_name s.counts).1)
            (λ v w p. (ap worker_total p.0, ap worker_total p.1)) m in
        let ec = ap counted c in
        let el = ap (sum_paths W) l in
        record {
          queued = k.queued;
          holds = subst (λ x. Holds x k.queued) (sym q) k.holds;
          adds = omega arith;
        }
    Step-Sum {all} {s} {t} (put dir path names e m c l) k =
        elim (enqueue_task_inv path k.queued k.holds e) [
          | inl (f, h) ↦
              let a = k.adds in
              let d =
                workers_total-Moves (entries_total fs value W dir names + (W path + 0))
                  (entries_total fs value W dir names + 0)
                  (λ v w p. (ap worker_total p.0, ap worker_total p.1)) m in
              let ec = ap counted c in
              let el = ap (sum_paths W) l in
              let es = sum_paths-append W k.queued (path ∷ []) in
              record { queued = k.queued ++ path ∷ []; holds = h; adds = omega arith }
          | inr (f, h) ↦ cc
        ]
    Step-Sum {all} {s} {t} (drop dir path names e m c l) k =
        elim (enqueue_task_inv path k.queued k.holds e) [
          | inl (f, h) ↦ cc
          | inr (f, h) ↦
              let a = k.adds in
              let d =
                workers_total-Moves (entries_total fs value W dir names + (W path + 0))
                  (entries_total fs value W dir names + 0)
                  (λ v w p. (ap worker_total p.0, ap worker_total p.1)) m in
              let ec = ap counted c in
              let el = ap (sum_paths W) l in
              record {
                queued = k.queued;
                holds = subst (λ x. Holds x k.queued) (sym h) k.holds;
                adds = omega arith;
              }
        ]
    Step-Sum {all} {s} {t} (closedir dir m q c l) k =
        let a = k.adds in
        let d = workers_total-Moves 0 0 (λ v w p. (ap worker_total p.0, ap worker_total p.1)) m in
        let ec = ap counted c in
        let el = ap (sum_paths W) l in
        record {
          queued = k.queued;
          holds = subst (λ x. Holds x k.queued) (sym q) k.holds;
          adds = omega arith;
        }
    Step-Sum {all} {s} {t} (done q w c l) k =
        let a = k.adds in
        let d = ap workers_total w in
        let ec = ap counted c in
        let el = ap (sum_paths W) l in
        record {
          queued = k.queued;
          holds = subst (λ x. Holds x k.queued) (sym q) (set_done-Holds k.holds);
          adds = omega arith;
        }

    pub Runs-Sum : {all : ℕ} {start s : System} → Sum all start → Runs fs start s → Sum all s
    Runs-Sum k here = k
    Runs-Sum k (more r st) = Step-Sum st (Runs-Sum k r)
