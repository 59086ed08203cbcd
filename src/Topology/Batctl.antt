-- ===== src/Topology/Batctl.antt =====
-- internal/topology/batctl.go: the neighbors that `batctl o` lists. The regular expressions and
-- strconv are the interface `Patterns`, and a run of a program is what it prints, or none.
pub mod Best
use omm.Prelude.{String, Bool, Option, none, some, List, [], ◌∷◌, ◌==◌, if◌then◌else◌}
use omm.Prelude.Int.{ℤ, ltb_ℤ}
use omm.Strings.{Strings}
use omm.Topology.{Neighbor}

pub record Patterns : Type 0 where
  -- all matches of `macRe`
  pub macs : String → List String
  -- the submatch of `tqRe`, `ifaceRe` and `iwSignalRe`
  pub tq : String → Option String
  pub iface : String → Option String
  pub iw_signal : String → Option String
  pub atoi : String → Option ℤ

-- `CommandRunner`, for a program and its arguments.
abbrev pub Runner : Type 0
Runner = List String → Option String

abbrev or_blank : Option String → String
or_blank none = ""
or_blank (some s) = s

-- The map `best` in the order of `order`: a neighbor replaces the one of its id if it is better.
unfoldable pub put_best : Neighbor → List Neighbor → List Neighbor
put_best n [] = n ∷ []
put_best n (x ∷ xs) =
    let rest = put_best n xs in
    if x.id == n.id then (if ltb_ℤ x.tq n.tq then n else x) ∷ xs else x ∷ rest

module _ (strings : Strings) (patterns : Patterns) where
  abbrev originator : String → String → String → Option Neighbor
  originator line mac nexthop = elim (patterns.tq line) [
    | none ↦ none
    | some text ↦ elim (patterns.atoi (strings.trim_space text)) [
      | none ↦ none
      | some quality ↦ some (record {
        id = strings.to_lower mac;
        tq = quality;
        nexthop = strings.to_lower nexthop;
        iface = or_blank (patterns.iface line);
      })
    ]
  ]

  -- A line has two MACs and a quality, or is skipped.
  unfoldable pub originator_of : String → Option Neighbor
  originator_of line = elim (patterns.macs line) [
    | mac ∷ nexthop ∷ more ↦ originator line mac nexthop
    | _ ↦ none
  ]

  unfoldable pub add_originators : List String → List Neighbor → List Neighbor
  unfolding originator_of put_best
  add_originators [] best = best
  add_originators (line ∷ rest) best =
      add_originators rest (elim (originator_of line) [ none ↦ best | some n ↦ put_best n best ])

  unfoldable pub parse_originators : String → List Neighbor
  unfolding add_originators
  parse_originators out = add_originators (strings.lines out) []

  -- `Neighbors`
  unfoldable pub neighbors : Runner → String → Option (List Neighbor)
  unfolding parse_originators
  neighbors run iface =
      elim (run (if iface == "" then "batctl" ∷ "o" ∷ [] else "batctl" ∷ "-m" ∷ iface ∷ "o" ∷ [])) [
        | none ↦ none
        | some out ↦ some (parse_originators out)
      ]
