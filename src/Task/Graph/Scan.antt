-- ===== src/Task/Graph/Scan.antt =====
-- The inner loop of the search for a cycle: the tasks that it marks and queues, and its measure.
use agent_teams_mcp.Base.{
  Text, ◌==◌, ==_iff, ◌≡◌, refl, ℕ, ◌+◌, ◌≤◌, suc, inl, inr, true, false, not, ◌&&◌, ◌||◌, none,
  some, List, [], ◌∷◌, arith, contains, contains-cons, contains-snoc, length, length-append,
  if◌then◌else◌, Bool-cases,
}
use agent_teams_mcp.Task.Graph.{Search, visit, scan}

-- The entries of `pool` that are not in `visited`.
abbrev pub unseen : List Text → List Text → ℕ
unseen visited [] = 0
unseen visited (x ∷ pool) =
    let rest = unseen visited pool in if contains x visited then rest else suc rest

-- Popping one task and queueing unseen ones makes this smaller.
abbrev pub work : List Text → Search → ℕ
work pool s = unseen s.visited pool + length s.queue

unseen-cons :
    (d : Text) (visited pool : List Text) → unseen (d ∷ visited) pool ≤ unseen visited pool
unseen-cons d visited [] = omega arith
unseen-cons d visited (x ∷ pool) =
    ground (arith, contains-cons x d visited, unseen-cons d visited pool)

unseen-cons_lt :
    (d : Text) (visited pool : List Text)
    → contains d visited ≡ false
    → contains d pool ≡ true
    → suc (unseen (d ∷ visited) pool) ≤ unseen visited pool
unfolding contains
unseen-cons_lt d visited [] new h = cc
unseen-cons_lt d visited (x ∷ pool) new h =
    ground
      (arith, ==_iff x d, ==_iff d x, unseen-cons d visited pool, unseen-cons_lt d visited pool)

visit-work :
    (d : Text) (s : Search) (pool : List Text)
    → contains d pool ≡ true
    → work pool (visit d s) ≤ work pool s
unfolding visit
visit-work d s pool h =
    ground (arith, unseen-cons_lt d s.visited pool, length-append s.queue (d ∷ []))

pub scan-work :
    (target : Text) (ds : List Text) (s s' : Search) (pool : List Text)
    → ((d : Text) → contains d ds ≡ true → contains d pool ≡ true)
    → scan target ds s ≡ some s'
    → work pool s' ≤ work pool s
unfolding scan contains
scan-work target [] s s' pool sub e = ground arith
scan-work target (d ∷ ds) s s' pool sub e =
    let tail = scan-work target ds (visit d s) s' pool (λ x h. sub x (ground arith)) in
    let head = sub d (ground (arith, ==_iff d d)) in ground (arith, tail, visit-work d s pool head)

contains-visit :
    (d v : Text) (s : Search) → contains v (visit d s).visited ≡ (contains v s.visited || d == v)
unfolding visit
contains-visit d v s = ground (arith, contains-cons v d s.visited, ==_iff d v)

mem-visit :
    (d v : Text) (s : Search)
    → contains v (visit d s).queue ≡ (contains v s.queue || d == v && not (contains v s.visited))
unfolding visit
mem-visit d v s = ground (arith, contains-snoc v d s.queue, ==_iff d v)

-- What is known of a scan that finds no edge to the target.
pub record Scanned (target : Text) (ds : List Text) (s s' : Search) : Type 0 where
  pub marks : (v : Text) → contains v s'.visited ≡ (contains v s.visited || contains v ds)
  pub queues :
      (v : Text)
      → contains v s'.queue ≡ (contains v s.queue || contains v ds && not (contains v s.visited))
  pub misses : contains target ds ≡ false

pub scan-Scanned :
    (target : Text) (ds : List Text) (s s' : Search)
    → scan target ds s ≡ some s'
    → Scanned target ds s s'
unfolding scan contains
scan-Scanned target [] s s' e = record {
  marks = λ v. ground arith;
  queues = λ v. ground arith;
  misses = refl;
}
scan-Scanned target (d ∷ ds) s s' e = elim (Bool-cases (d == target)) [
  | inl hit ↦ absurd (ground arith)
  | inr other ↦
      let r = scan-Scanned target ds (visit d s) s' (ground arith) in
      record {
        marks = λ v. ground (arith, r.marks v, contains-visit d v s);
        queues = λ v. ground (arith, r.queues v, mem-visit d v s, contains-visit d v s);
        misses = ground (arith, r.misses);
      }
]

pub scan-none :
    (target : Text) (ds : List Text) (s : Search)
    → scan target ds s ≡ none
    → contains target ds ≡ true
unfolding scan contains
scan-none target [] s e = cc
scan-none target (d ∷ ds) s e = ground (arith, scan-none target ds (visit d s))
