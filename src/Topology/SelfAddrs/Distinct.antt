-- ===== src/Topology/SelfAddrs/Distinct.antt =====
-- The addresses of the node itself.
use mathlib.Core.Path.{subst}
use omm.Prelude.{
  String, Bool, true, false, ◌≡◌, refl, Bool-cases, inl, inr, Option, some, List, [], ◌∷◌, ◌++◌,
  ◌==◌, ◌||◌, ◌&&◌, not, arith, eq_iff, eq_refl,
}
use omm.Strings.{Strings}
use omm.Store.Removal.{contains}
use omm.Topology.Batctl.{Runner}
use omm.Topology.SelfAddrs.{add_addr, read_mac, add_macs, parse_hardifs, self_addrs}

-- No address is blank, and none stands twice.
unfoldable pub well_formed : List String → Bool
unfolding contains
well_formed [] = true
well_formed (a ∷ addrs) = not (a == "") && (not (contains a addrs) && well_formed addrs)

contains-snoc :
    (a mac : String) (addrs : List String)
    → contains a (addrs ++ mac ∷ []) ≡ (contains a addrs || (mac == a))
unfolding contains
contains-snoc a mac [] = ground arith
contains-snoc a mac (x ∷ xs) = ground (arith, contains-snoc a mac xs)

well_formed-snoc :
    (mac : String) (addrs : List String)
    → (mac == "") ≡ false
    → contains mac addrs ≡ false
    → well_formed addrs ≡ true
    → well_formed (addrs ++ mac ∷ []) ≡ true
unfolding well_formed contains
well_formed-snoc mac [] n c h = ground arith
well_formed-snoc mac (a ∷ addrs) n c h =
    ground
      (arith, well_formed-snoc mac addrs n, contains-snoc a mac addrs, eq_iff mac a, eq_iff a mac)

well_formed-add_addr :
    (mac : String) (addrs : List String)
    → well_formed addrs ≡ true
    → well_formed (add_addr mac addrs) ≡ true
unfolding add_addr
well_formed-add_addr mac addrs h = elim (Bool-cases ((mac == "") || contains mac addrs)) [
  | inl e ↦ rw e h
  | inr e ↦ rw e (well_formed-snoc mac addrs (ground arith) (ground arith) h)
]

-- The address is in the list if it is not blank.
unfoldable pub lists : String → List String → Bool
unfolding contains
lists mac addrs = (mac == "") || contains mac addrs

lists-add_addr :
    (a mac : String) (addrs : List String)
    → lists a (add_addr mac addrs) ≡ ((mac == a) || lists a addrs)
unfolding add_addr lists
lists-add_addr a mac addrs =
    ground (arith, contains-snoc a mac addrs, eq_iff mac a, eq_iff mac "", eq_iff a "")

module _ (strings : Strings) where
  well_formed-add_macs :
      (read : String → Option String) (devs addrs : List String)
      → well_formed addrs ≡ true
      → well_formed (add_macs strings read devs addrs) ≡ true
  unfolding add_macs
  well_formed-add_macs read [] addrs h = h
  well_formed-add_macs read (dev ∷ devs) addrs h =
      well_formed-add_macs read devs (add_addr (read_mac strings read dev) addrs)
        (well_formed-add_addr (read_mac strings read dev) addrs h)

  lists-add_macs_kept :
      (read : String → Option String) (mac : String) (devs addrs : List String)
      → lists mac addrs ≡ true
      → lists mac (add_macs strings read devs addrs) ≡ true
  unfolding add_macs
  lists-add_macs_kept read mac [] addrs h = h
  lists-add_macs_kept read mac (dev ∷ devs) addrs h =
      lists-add_macs_kept read mac devs (add_addr (read_mac strings read dev) addrs)
        (ground (arith, lists-add_addr mac (read_mac strings read dev) addrs))

  lists-add_macs :
      (read : String → Option String) (dev : String) (devs addrs : List String)
      → contains dev devs ≡ true
      → lists (read_mac strings read dev) (add_macs strings read devs addrs) ≡ true
  unfolding add_macs contains
  lists-add_macs read dev [] addrs h = cc h
  lists-add_macs read dev (d ∷ devs) addrs h = elim (Bool-cases (d == dev)) [
    | inr e ↦ lists-add_macs read dev devs (add_addr (read_mac strings read d) addrs) (rw e at h)
    | inl e ↦
        lists-add_macs_kept read (read_mac strings read dev) devs
          (add_addr (read_mac strings read d) addrs)
          (subst
            (λ x. lists (read_mac strings read x) (add_addr (read_mac strings read d) addrs) ≡ true)
            ((eq_iff d dev).0 e)
            (ground (
              arith,
              lists-add_addr (read_mac strings read d) (read_mac strings read d) addrs,
              eq_refl (read_mac strings read d),
            )))
  ]

  -- If the interface of the mesh is configured and batctl if lists a device, the addresses
  -- that SelfAddrs reports are not blank and all different, and those of the interface and of
  -- the device are among them, if they can be read and are not blank.
  pub self_addrs_lists :
      (iface out dev : String) (run : Runner) (read : String → Option String)
      → (iface == "") ≡ false
      → run ("batctl" ∷ "-m" ∷ iface ∷ "if" ∷ []) ≡ some out
      → contains dev (parse_hardifs strings out) ≡ true
      → (well_formed (self_addrs strings iface run read) ≡ true)
        × (lists (read_mac strings read iface) (self_addrs strings iface run read) ≡ true)
        × (lists (read_mac strings read dev) (self_addrs strings iface run read) ≡ true)
  unfolding self_addrs well_formed
  self_addrs_lists iface out dev run read given listed has =
      let own = add_addr (read_mac strings read iface) [] in
      let devs = parse_hardifs strings out in
      rw (given, listed)
        (
          well_formed-add_macs read devs own
              (well_formed-add_addr (read_mac strings read iface) [] refl),
          lists-add_macs_kept read (read_mac strings read iface) devs own (
              ground (
                arith,
                lists-add_addr (read_mac strings read iface) (read_mac strings read iface) [],
                eq_refl (read_mac strings read iface),
              )),
          lists-add_macs read dev devs own has,
        )
