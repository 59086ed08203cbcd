-- ===== src/Uci/Toy.antt =====
-- A configuration in memory, whose calls succeed where rpcd's do: a section must be there to be
-- read, changed or deleted. The commits of one package fail.
use omm.Prelude.{
  String, ◌≡◌, refl, Bool, true, false, Bool-cases, inl, inr, Option, none, some, List, [], ◌==◌,
  ◌&&◌, ◌||◌, not, if◌then◌else◌, eq_refl, arith,
}
use omm.Uci.{Uci, Value, value_of, is_same, is_at}
use omm.Uci.Rpcd.{Rpcd}
use omm.Uci.Client.Interface.{uci_client}

pub record Memory : Type 0 where
  pub has : String → String → Bool
  pub at : String → String → String → Option Value
  -- What `get` of a whole package shows.
  pub listed : List (String × List (String × Value))

abbrev pub blank : Memory
blank = record { has = λ p s. false; at = λ p s o. none; listed = [] }

abbrev pub read : (pkg sec opt : String) → Memory → Option (Option Value)
read pkg sec opt m = if m.has pkg sec then some (m.at pkg sec opt) else none

abbrev pub make : (pkg type name : String) → Memory → Bool × Memory
make pkg type name m = (true, record m { has = λ p s. is_same p s pkg name || m.has p s })

abbrev pub written : (pkg sec : String) → List (String × Value) → Memory → Memory
written pkg sec values m = record m {
  at = λ p s o.
      if is_same p s pkg sec
      then elim (value_of o values) [ none ↦ m.at p s o | some v ↦ some v ]
      else m.at p s o;
}

abbrev pub write : (pkg sec : String) → List (String × Value) → Memory → Bool × Memory
write pkg sec values m = if m.has pkg sec then (true, written pkg sec values m) else (false, m)

-- The section with its values.
abbrev pub put : (pkg sec : String) → List (String × Value) → Memory → Memory
put pkg sec values m = written pkg sec values (make pkg "" sec m).1

abbrev pub drop : (pkg sec : String) → Memory → Bool × Memory
drop pkg sec m =
    if m.has pkg sec
    then (true, record m { has = λ p s. not (is_same p s pkg sec) && m.has p s })
    else (false, m)

abbrev pub clear : (pkg sec opt : String) → Memory → Bool × Memory
clear pkg sec opt m =
    if m.has pkg sec
    then (true, record m { at = λ p s o. if is_at p s o pkg sec opt then none else m.at p s o })
    else (false, m)

abbrev is_same_self : (p s : String) → is_same p s p s ≡ true
is_same_self p s = rw (eq_refl p, eq_refl s) refl

abbrev pub memory : String → Rpcd
memory broken = record {
  Config = Memory;
  has_section = λ p s m. m.has p s;
  value = λ p s o m. m.at p s o;
  get = read;
  get_package = λ pkg m. some m.listed;
  add = make;
  set = write;
  delete = drop;
  delete_option = clear;
  commit = λ pkg m. (not (pkg == broken), m);
  notify = λ object method m. (true, m);
  get_value = λ pkg sec opt m o h. elim (Bool-cases (m.has pkg sec)) [
    | inl e ↦ let same : some (m.at pkg sec opt) ≡ some o = rw e at h in ground (arith, same)
    | inr e ↦ cc (rw e at h)
  ];
  add_has = λ pkg type name m ok. rw (is_same_self pkg name) refl;
  add_values = λ pkg type name m p s o. refl;
  add_sections = λ pkg type name m p s ne. rw ne refl;
  set_value = λ pkg sec values m o v ok at. elim (Bool-cases (m.has pkg sec)) [
    | inl e ↦ rw e (rw (is_same_self pkg sec) (rw at refl))
    | inr e ↦ cc (rw e at ok)
  ];
  set_unnamed = λ pkg sec values m p s o at. elim (Bool-cases (m.has pkg sec)) [
    | inr e ↦ rw e refl
    | inl e ↦ elim (Bool-cases (is_same p s pkg sec)) [
      | inl i ↦ rw e (rw i (rw at refl))
      | inr i ↦ rw e (rw i refl)
    ]
  ];
  set_other = λ pkg sec values m p s o ne. elim (Bool-cases (m.has pkg sec)) [
    | inl e ↦ rw e (rw ne refl)
    | inr e ↦ rw e refl
  ];
  set_sections = λ pkg sec values m p s. elim (Bool-cases (m.has pkg sec)) [
    | inl e ↦ rw e refl
    | inr e ↦ rw e refl
  ];
  delete_gone = λ pkg sec m ok. elim (Bool-cases (m.has pkg sec)) [
    | inl e ↦ rw e (rw (is_same_self pkg sec) refl)
    | inr e ↦ cc (rw e at ok)
  ];
  delete_absent = λ pkg sec m absent. rw absent refl;
  delete_other = λ pkg sec m p s o ne. elim (Bool-cases (m.has pkg sec)) [
    | inl e ↦ rw e refl
    | inr e ↦ rw e refl
  ];
  delete_sections = λ pkg sec m p s ne. elim (Bool-cases (m.has pkg sec)) [
    | inl e ↦ rw e (rw ne refl)
    | inr e ↦ rw e refl
  ];
  delete_option_gone = λ pkg sec opt m ok. elim (Bool-cases (m.has pkg sec)) [
    | inl e ↦ rw e (rw (is_same_self pkg sec, eq_refl opt) refl)
    | inr e ↦ cc (rw e at ok)
  ];
  delete_option_other = λ pkg sec opt m p s o ne. elim (Bool-cases (m.has pkg sec)) [
    | inl e ↦ rw e (rw ne refl)
    | inr e ↦ rw e refl
  ];
  delete_option_sections = λ pkg sec opt m p s. elim (Bool-cases (m.has pkg sec)) [
    | inl e ↦ rw e refl
    | inr e ↦ rw e refl
  ];
  commit_values = λ pkg m p s o. refl;
  commit_sections = λ pkg m p s. refl;
  notify_values = λ object method m p s o. refl;
  notify_sections = λ object method m p s. refl;
}

-- The client over it.
abbrev pub toy : String → Uci
toy broken = uci_client (memory broken)
