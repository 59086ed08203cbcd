-- ===== src/Topology/ReaderTests.antt =====
-- The theorems about the readers of topology data, on short outputs.
use omm.Prelude.{String, ◌≡◌, refl, true, Option, none, some, [], ◌∷◌, ◌==◌, All, if◌then◌else◌}
use omm.Prelude.Int.{pos}
use omm.Strings.{Strings}
use omm.Store.Removal.{contains}
use omm.Topology.Batctl.{Patterns, Runner, parse_originators}
use omm.Topology.Batctl.Best.{distinct, covers, parse_originators_best}
use omm.Topology.SelfAddrs.{self_addrs, read_mac, parse_hardifs, devices_of}
use omm.Topology.SelfAddrs.Distinct.{well_formed, lists, self_addrs_lists}

-- Three lines, which name a device before a colon that is not shown.
abbrev strings : Strings
strings = record {
  lines = λ s. "weak" ∷ "strong" ∷ "other" ∷ [];
  fields = λ s. [];
  trim_space = λ s. s;
  before_colon = λ s. some s;
  to_lower = λ s. s;
}

-- Two of the lines are of one originator.
abbrev patterns : Patterns
patterns = record {
  macs = λ line. (if line == "other" then "bb" else "aa") ∷ "cc" ∷ [];
  tq = λ line. some line;
  iface = λ line. none;
  iw_signal = λ line. none;
  atoi = λ text. some (if text == "strong" then pos 200 else pos 100);
}

parse_originators_best_example :
    (distinct (parse_originators strings patterns "out") ≡ true)
    × (covers strings patterns (strings.lines "out") (parse_originators strings patterns "out")
        ≡ true)
    × All (λ n. Unit {0}) (parse_originators strings patterns "out")
parse_originators_best_example =
    parse_originators_best strings patterns "out" (λ n. Unit {0})
      ((λ n h. tt), ((λ n h. tt), ((λ n h. tt), tt)))

abbrev run : Runner
run args = some "out"

abbrev read : String → Option String
read path = some path

self_addrs_lists_example :
    (well_formed (self_addrs strings "bat0" run read) ≡ true)
    × (lists (read_mac strings read "bat0") (self_addrs strings "bat0" run read) ≡ true)
    × (lists (read_mac strings read "strong") (self_addrs strings "bat0" run read) ≡ true)
unfolding parse_hardifs devices_of contains
self_addrs_lists_example = self_addrs_lists strings "bat0" "out" "strong" run read refl refl refl
