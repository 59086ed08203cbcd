-- ===== src/NetPosture/Settled.antt =====
-- What a posture that was applied with success leaves.
use omm.Prelude.{
  String, ◌≡◌, refl, sym, ◌∙◌, Bool, true, false, Bool-cases, inl, inr, some, List, [], ◌∷◌, ◌==◌,
  ◌&&◌, ◌||◌, not, All, All-map_of, if◌then◌else◌, arith, eq_iff,
}
use mathlib.Core.Path.{subst}
use omm.Uci.{Uci, scalar, is_at}
use omm.Uci.Action.{Action, IsKept, seq, seq-ok, seq-IsKept, each, each-IsKept}
use omm.Uci.Members.{is_member}
use omm.NetPosture.{
  Config, OptionSet, option_set, bridged_sets, controller_sets, role_guest, role_controller,
  role_mesh_node, apply_sets, uplink_port, edit_bridge, apply_bridged_dumb_ap, apply_controller,
  apply_guest, apply_mesh_node, apply,
}

-- No later set of the list is of that option.
abbrev pub IsLast : OptionSet → List OptionSet → Type 0
IsLast s later =
    All (λ (t : OptionSet). is_at s.pkg s.section s.option t.pkg t.section t.option ≡ false) later

-- No option is set twice.
abbrev pub AreApart : List OptionSet → Type 0
AreApart [] = Unit
AreApart (s ∷ rest) = IsLast s rest × AreApart rest

module _ (uci : Uci) where
  abbrev set_one : OptionSet → Action uci
  set_one s = uci.set s.pkg s.section s.option s.value

  -- The option of the set has its value.
  abbrev pub IsSetIn : uci.Config → OptionSet → Type 0
  IsSetIn c s = uci.value s.pkg s.section s.option c ≡ some (scalar s.value)

  sets-IsKept :
      (p s o : String) (sets : List OptionSet)
      → All (λ (t : OptionSet). is_at p s o t.pkg t.section t.option ≡ false) sets
      → IsKept uci p s o (each uci set_one sets)
  sets-IsKept p s o sets h = each-IsKept uci p s o set_one sets (
      All-map_of (λ (t : OptionSet). is_at p s o t.pkg t.section t.option ≡ false)
        (λ t. IsKept uci p s o (set_one t)) sets
        (λ t off c. uci.set_other t.pkg t.section t.option t.value c p s o off) h)

  sets_made :
      (sets : List OptionSet) (c : uci.Config)
      → AreApart sets
      → (each uci set_one sets c).0 ≡ true
      → All (IsSetIn (each uci set_one sets c).1) sets
  unfolding each
  sets_made [] c apart ok = tt
  sets_made (s ∷ rest) c apart ok =
      let (first, later, e) = seq-ok uci (set_one s) (each uci set_one rest) c ok in
      let c1 = (set_one s c).1 in
      let mine =
        sets-IsKept s.pkg s.section s.option rest apart.0 c1
        ∙ uci.set_option s.pkg s.section s.option s.value c first in
      subst (λ (r : Bool × uci.Config). All (IsSetIn r.1) (s ∷ rest)) (sym e)
        (mine, sets_made rest c1 apart.1 later)

  all_commits :
      (p s o : String) (pkgs : List String) → All (λ pkg. IsKept uci p s o (uci.commit pkg)) pkgs
  all_commits p s o [] = tt
  all_commits p s o (x ∷ xs) = (λ c. uci.commit_option x c p s o, all_commits p s o xs)

  commits-IsKept :
      (p s o : String) (pkgs : List String)
      → IsKept uci p s o (seq uci (each uci uci.commit pkgs) uci.reload)
  commits-IsKept p s o pkgs =
      seq-IsKept uci p s o (each uci uci.commit pkgs) uci.reload
        (each-IsKept uci p s o uci.commit pkgs (all_commits p s o pkgs))
        (λ c. uci.reload_option c p s o)

  apply_sets_made :
      (sets : List OptionSet) (pkgs : List String) (c : uci.Config)
      → AreApart sets
      → (apply_sets uci sets pkgs c).0 ≡ true
      → All (IsSetIn (apply_sets uci sets pkgs c).1) sets
  unfolding apply_sets
  apply_sets_made sets pkgs c apart ok =
      let (first, _, e) =
        seq-ok uci (each uci set_one sets) (seq uci (each uci uci.commit pkgs) uci.reload) c ok in
      let c1 = (each uci set_one sets c).1 in
      subst (λ (r : Bool × uci.Config). All (IsSetIn r.1) sets) (sym e)
        (All-map_of (IsSetIn c1) (IsSetIn (seq uci (each uci uci.commit pkgs) uci.reload c1).1) sets
          (λ s h. commits-IsKept s.pkg s.section s.option pkgs c1 ∙ h)
          (sets_made sets c apart first))

  apply_sets-IsKept :
      (p s o : String) (sets : List OptionSet) (pkgs : List String)
      → All (λ (t : OptionSet). is_at p s o t.pkg t.section t.option ≡ false) sets
      → IsKept uci p s o (apply_sets uci sets pkgs)
  unfolding apply_sets
  apply_sets-IsKept p s o sets pkgs h =
      seq-IsKept uci p s o (each uci set_one sets) (seq uci (each uci uci.commit pkgs) uci.reload)
        (sets-IsKept p s o sets h) (commits-IsKept p s o pkgs)

  -- The uplink is known and there is a bridge to edit.
  abbrev pub edits : Config → uci.Config → Bool
  edits cfg c = not (uplink_port uci cfg c == "") && not (cfg.lan_device == "")

  -- The value is a port of the LAN bridge.
  abbrev pub in_lan : Config → String → uci.Config → Bool
  in_lan cfg w c = is_member uci "network" cfg.lan_device "ports" w c

  -- What an edit that succeeds makes of the ports, and whether it leaves an option of the LAN.
  edit_ports :
      (edit : (pkg sec opt value : String) → Action uci) (f : Bool → Bool → Bool) (cfg : Config)
      (c : uci.Config) (w : String)
      → ((u : String)
          → (edit "network" cfg.lan_device "ports" u c).0 ≡ true
          → in_lan cfg w (edit "network" cfg.lan_device "ports" u c).1
            ≡ f (u == w) (in_lan cfg w c))
      → in_lan cfg w c ≡ f false (in_lan cfg w c)
      → (edit_bridge uci edit cfg c).0 ≡ true
      → in_lan cfg w (edit_bridge uci edit cfg c).1
        ≡ f (edits cfg c && (uplink_port uci cfg c == w)) (in_lan cfg w c)
  unfolding edit_bridge
  edit_ports edit f cfg c w law none' ok = elim (Bool-cases (edits cfg c)) [
    | inl e ↦ rw (e, edit_bridge) (law (uplink_port uci cfg c) (rw (e, edit_bridge) at ok))
    | inr e ↦ rw (e, edit_bridge) none'
  ]

  ports_off_bridged :
      (lan : String)
      → All
          (λ (t : OptionSet). is_at "network" lan "ports" t.pkg t.section t.option ≡ false)
          bridged_sets
  ports_off_bridged lan = (ground arith, (ground arith, (ground arith, (refl, tt))))

  ports_off_controller :
      (lan : String)
      → All
          (λ (t : OptionSet). is_at "network" lan "ports" t.pkg t.section t.option ≡ false)
          controller_sets
  ports_off_controller lan = (ground arith, (ground arith, (refl, tt)))

  bridged_settles :
      (cfg : Config) (c : uci.Config) (w : String)
      → (apply_bridged_dumb_ap uci cfg c).0 ≡ true
      → All (IsSetIn (apply_bridged_dumb_ap uci cfg c).1) bridged_sets
        × (in_lan cfg w (apply_bridged_dumb_ap uci cfg c).1
            ≡ ((edits cfg c && (uplink_port uci cfg c == w)) || in_lan cfg w c))
  unfolding apply_bridged_dumb_ap
  bridged_settles cfg c w ok =
      let (first, second, e) =
        seq-ok uci (edit_bridge uci uci.add_list_item cfg)
          (apply_sets uci bridged_sets ("network" ∷ "dhcp" ∷ [])) c ok in
      let c1 = (edit_bridge uci uci.add_list_item cfg c).1 in
      let made =
        apply_sets_made bridged_sets ("network" ∷ "dhcp" ∷ []) c1
          ((refl, (refl, (refl, tt))), ((refl, (refl, tt)), ((refl, tt), (tt, tt)))) second in
      let kept =
        apply_sets-IsKept "network" cfg.lan_device "ports" bridged_sets ("network" ∷ "dhcp" ∷ [])
          (ports_off_bridged cfg.lan_device) c1 in
      let ports =
        edit_ports uci.add_list_item (λ new old. new || old) cfg c w
          (λ u done. uci.add_list_item_members "network" cfg.lan_device "ports" u c w done) refl
          first in
      rw e (made, rw kept ports)

  controller_settles :
      (cfg : Config) (c : uci.Config) (w : String)
      → (apply_controller uci cfg c).0 ≡ true
      → All (IsSetIn (apply_controller uci cfg c).1) controller_sets
        × (in_lan cfg w (apply_controller uci cfg c).1
            ≡ (not (edits cfg c && (uplink_port uci cfg c == w)) && in_lan cfg w c))
  unfolding apply_controller
  controller_settles cfg c w ok =
      let (first, second, e) =
        seq-ok uci (edit_bridge uci uci.del_list_item cfg)
          (apply_sets uci controller_sets ("network" ∷ "dhcp" ∷ [])) c ok in
      let c1 = (edit_bridge uci uci.del_list_item cfg c).1 in
      let made =
        apply_sets_made controller_sets ("network" ∷ "dhcp" ∷ []) c1
          ((refl, (refl, tt)), ((refl, tt), (tt, tt))) second in
      let kept =
        apply_sets-IsKept "network" cfg.lan_device "ports" controller_sets ("network" ∷ "dhcp" ∷ [])
          (ports_off_controller cfg.lan_device) c1 in
      let ports =
        edit_ports uci.del_list_item (λ gone old. not gone && old) cfg c w
          (λ u done. uci.del_list_item_members "network" cfg.lan_device "ports" u c w done) refl
          first in
      rw e (made, rw kept ports)

  -- The options of a role: a controller routes, with its uplinks and its DHCP server on; the
  -- LAN of the others is a DHCP client, with the uplinks and the DHCP server off.
  abbrev pub sets_of : String → List OptionSet
  sets_of role =
      if role == "controller"
      then option_set "network" "wan" "disabled" "0"
        ∷ option_set "network" "wan6" "disabled" "0"
        ∷ option_set "dhcp" "lan" "ignore" "0"
        ∷ []
      else option_set "network" "lan" "proto" "dhcp"
        ∷ option_set "network" "wan" "disabled" "1"
        ∷ option_set "network" "wan6" "disabled" "1"
        ∷ option_set "dhcp" "lan" "ignore" "1"
        ∷ []

  -- What a role makes of the uplink among the ports.
  abbrev pub turn_of : String → Bool → Bool → Bool
  turn_of role uplink old = if role == "controller" then not uplink && old else uplink || old

  -- After a successful Apply of a role, which is then one of the three, every option of the
  -- role has its value; the uplink, if it is known and there is a LAN bridge, is one of the
  -- ports of the bridge for a guest or a mesh node and none for a controller, and every other
  -- port is as it was.
  pub apply_settles :
      (cfg : Config) (role : String) (c : uci.Config) (w : String)
      → (apply uci cfg role c).0 ≡ true
      → ((role == "guest") || (role == "controller") || (role == "node") ≡ true)
        × All (IsSetIn (apply uci cfg role c).1) (sets_of role)
        × (in_lan cfg w (apply uci cfg role c).1
            ≡ turn_of role (edits cfg c && (uplink_port uci cfg c == w)) (in_lan cfg w c))
  unfolding apply apply_guest apply_mesh_node
  apply_settles cfg role c w ok = elim (Bool-cases (role == role_guest)) [
    | inl e ↦
        let at : role ≡ role_guest = (eq_iff role role_guest).0 e in
        let (made, ports) = bridged_settles cfg c w (rw at at ok) in rw at (refl, made, ports)
    | inr e ↦ elim (Bool-cases (role == role_controller)) [
      | inl f ↦
          let at : role ≡ role_controller = (eq_iff role role_controller).0 f in
          let (made, ports) = controller_settles cfg c w (rw at at ok) in rw at (refl, made, ports)
      | inr f ↦ elim (Bool-cases (role == role_mesh_node)) [
        | inl g ↦
            let at : role ≡ role_mesh_node = (eq_iff role role_mesh_node).0 g in
            let (made, ports) = bridged_settles cfg c w (rw at at ok) in rw at (refl, made, ports)
        | inr g ↦ cc (rw (e, f, g) at ok)
      ]
    ]
  ]
