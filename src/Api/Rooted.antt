-- ===== src/Api/Rooted.antt =====
-- The active Home is none, or one that is stored, whatever requests are served.
pub mod Served
pub mod Run
use mathlib.Core.Path.{subst, sym}
use omm.Prelude.{
  String, Bool, true, false, ◌≡◌, refl, Bool-cases, Option-cases, inl, inr, Option, none, some,
  ◌==◌, ◌||◌, not, List, [], ◌∷◌, arith, eq_iff, eq_refl,
}
use omm.Prelude.Int.{ℤ}
use omm.Models.{Home, Node, Profile, Enrollment}
use omm.Strings.{Strings}
use omm.Identity.{Crypto}
use omm.Enrollment.{Options}
use omm.Enrollment as Enrollment
use omm.Enrollment.Frame.{
  request-IsFrame, verify-IsFrame, get-IsFrame, ack-IsFrame, reject-IsFrame, adopt-IsFrame,
  list-IsFrame,
}
use omm.Store.Bolt.{Bolt}
use omm.Store.Result.{Result, Error, not_found, ok, err, Result-cases, ◌>>=◌, ◌>>◌}
use omm.Store.Db.{Db, Exec, get_record, put_record, update}
use omm.Store.Records.{
  list_homes, get_home, create_home, create_home_tx, upsert_home, upsert_home_tx, update_home,
  update_home_tx, list_nodes, get_node, create_node, get_profile, create_or_update_profile,
}
use omm.Store.Removal.{
  delete_home, delete_home_tx, delete_node, put_nodes, stripped, scoped_keys, scoped_nodes,
}
use omm.Store.Settings.{
  get_active_home, set_active_home, set_setting_tx, setting_active_home, reset, set_setup_complete,
  get_setup_complete,
}
use omm.Store.SettingsReads.{get-set_setting_tx, reset_clears}
use omm.Store.Laws.{update_keeps, write_keeps, get-put_record, >>=-eq-ok}
use omm.Api.Response.{Response}
use omm.Api.Homes.{Serve, answer, calling}
use omm.Store.Frame.{
  IsSameHomes, IsFrame, create_node-IsFrame, create_or_update_profile-IsFrame, delete_node-IsFrame,
  set_setup_complete-IsFrame, homes-set_setting_tx,
}

module _ (bolt : Bolt) where
  abbrev pub has : bolt.Bucket Home → String → Bool
  has homes id = elim (bolt.get Home homes id) [ none ↦ false | some _ ↦ true ]

  unfoldable pub is_known : bolt.Bucket Home → Result String → Bool
  is_known homes (err e) = true
  is_known homes (ok id) = (id == "") || has homes id

  abbrev pub IsRooted : Db bolt → Type 0
  IsRooted db = is_known db.homes (get_active_home bolt db).0 ≡ true

  -- Work on the store that keeps the active Home among the stored ones.
  abbrev pub Roots : {X : Type 0} → (Db bolt → X × Db bolt) → Type 0
  Roots f = (db : Db bolt) → IsRooted db → IsRooted (f db).1

  pub IsSameHomes-IsRooted : (a b : Db bolt) → IsSameHomes bolt a b → IsRooted a → IsRooted b
  IsSameHomes-IsRooted a b s r =
      subst (λ x. is_known x (get_active_home bolt b).0 ≡ true) (sym s.0)
        (subst (λ x. is_known a.homes x ≡ true) (sym s.1) r)

  pub IsFrame-Roots : {X : Type 0} (f : Db bolt → X × Db bolt) → IsFrame bolt f → Roots f
  IsFrame-Roots f h db r = IsSameHomes-IsRooted db (f db).1 (h db) r

  -- More Homes are stored.
  grown :
      (homes homes' : bolt.Bucket Home)
      → ((j : String) → has homes j ≡ true → has homes' j ≡ true)
      → (r : Result String) → is_known homes r ≡ true
      → is_known homes' r ≡ true
  unfolding is_known
  grown homes homes' h (err e) k = refl
  grown homes homes' h (ok id) k = ground (arith, h id)

  has-put_record :
      (homes homes' : bolt.Bucket Home) (k : String) (home : Home)
      → put_record bolt homes k home ≡ ok homes'
      → (j : String) → has homes j ≡ true
      → has homes' j ≡ true
  has-put_record homes homes' k home p j h =
      ground (arith, get-put_record bolt homes k j home homes' p)

  pub create_home-Roots : (home : Home) → Roots (create_home bolt home)
  unfolding create_home create_home_tx get_active_home
  create_home-Roots home db r = update_keeps bolt IsRooted (create_home_tx bolt home) db r λ db' h.
      write_keeps IsRooted (put_record bolt db.homes home.id home) _ h
        λ b p. grown db.homes b (has-put_record db.homes b home.id home p) _ r

  pub upsert_home-Roots : (home : Home) → Roots (upsert_home bolt home)
  unfolding upsert_home upsert_home_tx get_active_home
  upsert_home-Roots home db r = update_keeps bolt IsRooted (upsert_home_tx bolt home) db r λ db' h.
      elim (Result-cases (get_record bolt db.homes home.id)) [
        | inr (x, at) ↦
            write_keeps IsRooted (put_record bolt db.homes home.id home) _
              (rw (at, upsert_home_tx) at h)
              λ b p. grown db.homes b (has-put_record db.homes b home.id home p) _ r
        | inl (old, at) ↦
            let known : Home = record old {
              name = home.name;
              controller = home.controller;
              bssid = home.bssid;
              last_seen = home.last_seen;
            } in
            write_keeps IsRooted (put_record bolt db.homes home.id known) _
              (rw (at, upsert_home_tx) at h)
              λ b p. grown db.homes b (has-put_record db.homes b home.id known p) _ r
      ]

  pub update_home-Roots : (home : Home) → Roots (update_home bolt home)
  unfolding update_home update_home_tx get_active_home
  update_home-Roots home db r = update_keeps bolt IsRooted (update_home_tx bolt home) db r λ db' h.
      elim (Option-cases (bolt.get Home db.homes home.id)) [
        | inl gone ↦ cc (rw (gone, update_home_tx) at h)
        | inr (old, at) ↦
            let known : Home = record old {
              name = home.name;
              controller = home.controller;
              bssid = home.bssid;
            } in
            write_keeps IsRooted (put_record bolt db.homes home.id known) _
              (rw (at, update_home_tx) at h)
              λ b p. grown db.homes b (has-put_record db.homes b home.id known p) _ r
      ]

  -- A Home that is not the active one goes.
  pub delete_home-IsRooted :
      (id : String) (db : Db bolt) (active : String)
      → (get_active_home bolt db).0 ≡ ok active
      → (active == id) ≡ false
      → IsRooted db
      → IsRooted (delete_home bolt id db).1
  unfolding delete_home delete_home_tx get_active_home is_known
  delete_home-IsRooted id db active a ne r =
      update_keeps bolt IsRooted (delete_home_tx bolt id) db r λ db' h.
        elim (Option-cases (bolt.get Home db.homes id)) [
          | inl gone ↦ cc (rw (gone, delete_home_tx) at h)
          | inr (old, at) ↦
              write_keeps IsRooted
                (put_nodes bolt db.nodes (stripped id (bolt.entries Node db.nodes))) _
                (rw (at, delete_home_tx) at h)
                λ b p. ground (
                  arith,
                  bolt.get-delete Home db.homes id active,
                  eq_iff active id,
                  eq_iff id active,
                )
        ]

  pub set_active_home-IsRooted :
      (id : String) (db : Db bolt) (home : Home)
      → (get_home bolt id db).0 ≡ ok home
      → IsRooted db
      → IsRooted (set_active_home bolt id db).1
  unfolding set_active_home get_home get_active_home is_known
  set_active_home-IsRooted id db home at r =
      update_keeps bolt IsRooted (set_setting_tx bolt setting_active_home id) db r λ db' h.
        rw (homes-set_setting_tx bolt setting_active_home id db db' h) (
          ground (
            arith,
            get-set_setting_tx bolt setting_active_home id db db' setting_active_home h,
            eq_refl setting_active_home,
          ))

  pub reset-Roots : Roots (reset bolt)
  unfolding is_known
  reset-Roots db r = rw ((reset_clears bolt db).2) refl

  -- A call and what follows it, for the result that it gave.
  pub calling-IsRooted :
      {A : Type 0} (call : Exec bolt A) (fail : Error → Response) (rest : A → Serve bolt)
      (db : Db bolt)
      → IsRooted (call db).1
      → ((a : A) → (call db).0 ≡ ok a → IsRooted (rest a (call db).1).1)
      → IsRooted (calling bolt call fail rest db).1
  calling-IsRooted call fail rest db hc hr = elim (Result-cases (call db).0) [
    | inl (a, e) ↦ rw (e, calling) (hr a e)
    | inr (x, e) ↦ rw (e, calling) hc
  ]

  -- A call whose result is answered at once.
  pub answered-Roots :
      {A : Type 0} (call : Exec bolt A) (fail : Error → Response) (rest : A → Response)
      → Roots call
      → Roots (calling bolt call fail (λ a. answer bolt (rest a)))
  answered-Roots call fail rest hc db r =
      calling-IsRooted call fail (λ a. answer bolt (rest a)) db (hc db r) λ a e. hc db r
