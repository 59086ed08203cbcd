-- ===== src/Batman/Sections.antt =====
-- The sections of the `network` package that the layer authors.
use omm.Prelude.{String, ◌≡◌, Bool, false, List, [], ◌∷◌, ◌==◌, ◌||◌, All, arith}
use omm.Batman.{Config, wired_hardif, device_section, mesh_hardif}

-- The section is bat0's, the mesh's, or that of a wired port or of its MAC.
unfoldable pub owns_section : Config → List String → String → Bool
owns_section cfg [] s = (s == cfg.iface) || (s == mesh_hardif cfg)
owns_section cfg (p ∷ ps) s =
    (s == wired_hardif cfg p) || (s == device_section p) || owns_section cfg ps s

-- The section is not a wired port's.
abbrev pub IsApart : Config → String → String → Type 0
IsApart cfg s p = ((s == wired_hardif cfg p) ≡ false) × ((s == device_section p) ≡ false)

pub ports-IsApart :
    (cfg : Config) (s : String) (ps : List String)
    → owns_section cfg ps s ≡ false
    → All (IsApart cfg s) ps
unfolding owns_section
ports-IsApart cfg s [] h = tt
ports-IsApart cfg s (p ∷ ps) h =
    ((ground (arith, h), ground (arith, h)), ports-IsApart cfg s ps (ground (arith, h)))

pub soft_apart :
    (cfg : Config) (s : String) (ps : List String)
    → owns_section cfg ps s ≡ false
    → ((s == cfg.iface) ≡ false) × ((s == mesh_hardif cfg) ≡ false)
unfolding owns_section
soft_apart cfg s [] h = (ground (arith, h), ground (arith, h))
soft_apart cfg s (p ∷ ps) h = soft_apart cfg s ps (ground (arith, h))
