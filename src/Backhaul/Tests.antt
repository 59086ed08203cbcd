-- ===== src/Backhaul/Tests.antt =====
-- The theorems about the failover loop at concrete inputs.
use omm.Prelude.{◌≡◌, refl, true, false, inl, [], ◌∷◌, ◌++◌}
use omm.Backhaul.{Round, run, backhaul_ethernet, backhaul_wireless}
use omm.Backhaul.Failover.{recorded, IsAlternating, last_of, in_effect, run_records, run_settles}

abbrev wire_fails : Round
wire_fails = record { observed = ""; carrier = backhaul_wireless; actuates = true }

abbrev mesh_stays_up : Round
mesh_stays_up = record { observed = ""; carrier = backhaul_ethernet; actuates = false }

abbrev wire_returns : Round
wire_returns = record { observed = ""; carrier = backhaul_ethernet; actuates = true }

abbrev unreadable : Round
unreadable = record { observed = ""; carrier = "unknown"; actuates = true }

run_settles_example :
    run true ((wire_fails ∷ mesh_stays_up ∷ []) ++ wire_returns ∷ wire_returns ∷ []) ""
    ≡ (backhaul_ethernet, (run true ((wire_fails ∷ mesh_stays_up ∷ []) ++ wire_returns ∷ []) "").1)
run_settles_example =
    run_settles true (wire_fails ∷ mesh_stays_up ∷ []) wire_returns (wire_returns ∷ []) ""
      (inl refl) refl ((refl, inl refl), tt)

run_records_example :
    IsAlternating "" (recorded (run true (wire_fails ∷ unreadable ∷ wire_returns ∷ []) "").1)
    × (last_of "" (recorded (run true (wire_fails ∷ unreadable ∷ wire_returns ∷ []) "").1)
        ≡ (run true (wire_fails ∷ unreadable ∷ wire_returns ∷ []) "").0)
    × (in_effect "" (run true (wire_fails ∷ unreadable ∷ wire_returns ∷ []) "").1
        ≡ (run true (wire_fails ∷ unreadable ∷ wire_returns ∷ []) "").0)
run_records_example =
    run_records (wire_fails ∷ unreadable ∷ wire_returns ∷ []) "" (refl, (refl, (refl, tt)))
