-- ===== src/HomeSelect/Order.antt =====
-- `less` is a strict weak order, so the sort is defined, and what `select` and `choose` return.
use omm.Prelude.{◌≡◌, some, List, ◌∷◌, arith}
use omm.Prelude.Sort.{IsWeakOrder, IsFirstBest, head-stable_sort}
use omm.HomeSelect.{Candidate, less, select}

pub less-IsWeakOrder : IsWeakOrder less
unfolding less
less-IsWeakOrder = record {
  asym = λ a b h. ground arith;
  not_less_trans = λ a b c h k. ground arith;
}

-- From one or more candidates Select returns the first best: every earlier candidate is worse,
-- and no later one is better.
pub select-IsFirstBest :
    (x : Candidate) (xs : List Candidate)
    → (c : Candidate) × (select (x ∷ xs) ≡ some c) × IsFirstBest less c (x ∷ xs)
unfolding select
select-IsFirstBest x xs = head-stable_sort less less-IsWeakOrder x xs
