-- ===== src/Store/Strip.antt =====
-- `DeleteHome` on the nodes: every node is stored again without the Home, and none is lost.
use omm.Prelude.{
  String, ◌≡◌, refl, ap, true, false, Option, none, some, List, [], ◌∷◌, ◌==◌, All, if◌then◌else◌,
  arith, eq_iff, Bool-cases, Option-cases, inl, inr, ◌∙◌,
}
use omm.Models.{Node}
use omm.Store.Bolt.{Bolt, has_key}
use omm.Store.Result.{ok}
use omm.Store.Db.{put_record}
use omm.Store.Removal.{contains, without, is_member, strip_home, stripped, put_nodes}
use omm.Store.Laws.{>>=-eq-ok, get-put_record}

without_of_not_contains :
    (id : String) (hs : List String) → contains id hs ≡ false → without id hs ≡ hs
unfolding contains without
without_of_not_contains id [] h = refl
without_of_not_contains id (x ∷ xs) h = ground (arith, without_of_not_contains id xs)

contains-without : (id : String) (hs : List String) → contains id (without id hs) ≡ false
unfolding contains without
contains-without id [] = refl
contains-without id (x ∷ xs) = ground (arith, contains-without id xs)

pub contains-without_ne :
    (id h : String) (hs : List String)
    → (id == h) ≡ false
    → contains h (without id hs) ≡ contains h hs
unfolding contains without
contains-without_ne id h [] ne = refl
contains-without_ne id h (x ∷ xs) ne =
    ground (arith, contains-without_ne id h xs, eq_iff id h, eq_iff x id, eq_iff x h)

-- A node that is no member is as it was, and a stripped node is no member.
strip_home_of_not_member : (id : String) (n : Node) → is_member id n ≡ false → strip_home id n ≡ n
unfolding is_member strip_home
strip_home_of_not_member id n h = ground (arith, without_of_not_contains id n.trusted_homes)

pub is_member-strip_home :
    (id : String) (n : Node) → (id == "") ≡ false → is_member id (strip_home id n) ≡ false
unfolding is_member strip_home
is_member-strip_home id n h =
    ground (arith, contains-without id n.trusted_homes, eq_iff "" id, eq_iff id "")

abbrev pub strip? : String → Option Node → Option Node
strip? id none = none
strip? id (some n) = some (strip_home id n)

module _ (bolt : Bolt) (id j : String) (b : bolt.Bucket Node)
    (keyed : (k : String) (n : Node) → bolt.get Node b k ≡ some n → n.id ≡ k) where
  abbrev IsDone : bolt.Bucket Node → Type 0
  IsDone b0 = bolt.get Node b0 j ≡ strip? id (bolt.get Node b j)

  id-strip_home : (n : Node) → (strip_home id n).id ≡ n.id
  unfolding strip_home
  id-strip_home n = refl

  put_stripped :
      (k : String) (n : Node) (b0 b1 : bolt.Bucket Node)
      → bolt.get Node b k ≡ some n
      → put_record bolt b0 (strip_home id n).id (strip_home id n) ≡ ok b1
      → bolt.get Node b1 j ≡ (if k == j then some (strip_home id n) else bolt.get Node b0 j)
  put_stripped k n b0 b1 s h =
      get-put_record bolt b0 (strip_home id n).id j (strip_home id n) b1 h
      ∙ ap (λ i. if i == j then some (strip_home id n) else bolt.get Node b0 j)
          (id-strip_home n ∙ keyed k n s)

  IsDone-kept :
      (l : List (String × Node)) (b0 b1 : bolt.Bucket Node)
      → All (λ e. bolt.get Node b e.0 ≡ some e.1) l
      → IsDone b0
      → put_nodes bolt b0 (stripped id l) ≡ ok b1
      → IsDone b1
  unfolding put_nodes stripped
  IsDone-kept [] b0 b1 s d h = ground arith
  IsDone-kept ((k, n) ∷ l) b0 b1 s d h = elim (Bool-cases (is_member id n)) [
    | inl m ↦
        let (b2, p, q) =
          >>=-eq-ok (put_record bolt b0 (strip_home id n).id (strip_home id n)) _ (rw m at h) in
        IsDone-kept l b2 b1 s.1 (ground (arith, put_stripped k n b0 b2 s.0 p, s.0, d, eq_iff k j)) q
    | inr m ↦ IsDone-kept l b0 b1 s.1 d (rw m at h)
  ]

  walk_strips :
      (l : List (String × Node)) (b0 b1 : bolt.Bucket Node)
      → All (λ e. bolt.get Node b e.0 ≡ some e.1) l
      → bolt.get Node b0 j ≡ bolt.get Node b j
      → has_key j l ≡ true
      → put_nodes bolt b0 (stripped id l) ≡ ok b1
      → IsDone b1
  unfolding put_nodes stripped
  walk_strips [] b0 b1 s same has h = cc
  walk_strips ((k, n) ∷ l) b0 b1 s same has h = elim (Bool-cases (is_member id n)) [
    | inl m ↦
        let (b2, p, q) =
          >>=-eq-ok (put_record bolt b0 (strip_home id n).id (strip_home id n)) _ (rw m at h) in
        let at_j = put_stripped k n b0 b2 s.0 p in
        elim (Bool-cases (k == j)) [
          | inl e ↦ IsDone-kept l b2 b1 s.1 (ground (arith, at_j, s.0, eq_iff k j)) q
          | inr e ↦ walk_strips l b2 b1 s.1 (ground (arith, at_j)) (ground arith) q
        ]
    | inr m ↦ elim (Bool-cases (k == j)) [
      | inl e ↦
          IsDone-kept l b0 b1 s.1 (ground (arith, s.0, eq_iff k j, strip_home_of_not_member id n))
            (rw m at h)
      | inr e ↦ walk_strips l b0 b1 s.1 same (ground arith) (rw m at h)
    ]
  ]

  walk_spares :
      (l : List (String × Node)) (b0 b1 : bolt.Bucket Node)
      → All (λ e. bolt.get Node b e.0 ≡ some e.1) l
      → bolt.get Node b0 j ≡ bolt.get Node b j
      → has_key j l ≡ false
      → put_nodes bolt b0 (stripped id l) ≡ ok b1
      → bolt.get Node b1 j ≡ bolt.get Node b j
  unfolding put_nodes stripped
  walk_spares [] b0 b1 s same has h = ground arith
  walk_spares ((k, n) ∷ l) b0 b1 s same has h = elim (Bool-cases (is_member id n)) [
    | inl m ↦
        let (b2, p, q) =
          >>=-eq-ok (put_record bolt b0 (strip_home id n).id (strip_home id n)) _ (rw m at h) in
        walk_spares l b2 b1 s.1 (ground (arith, put_stripped k n b0 b2 s.0 p)) (ground arith) q
    | inr m ↦ walk_spares l b0 b1 s.1 same (ground arith) (rw m at h)
  ]

  -- `DeleteHome` stores every node stripped of the Home, and adds none.
  pub get-put_nodes :
      (b1 : bolt.Bucket Node)
      → put_nodes bolt b (stripped id (bolt.entries Node b)) ≡ ok b1
      → bolt.get Node b1 j ≡ strip? id (bolt.get Node b j)
  get-put_nodes b1 h = elim (Bool-cases (has_key j (bolt.entries Node b))) [
    | inl here ↦ walk_strips (bolt.entries Node b) b b1 (bolt.entries_sound Node b) refl here h
    | inr gone ↦
        let same = walk_spares (bolt.entries Node b) b b1 (bolt.entries_sound Node b) refl gone h in
        elim (Option-cases (bolt.get Node b j)) [
          | inl e ↦ ground arith
          | inr (n, e) ↦ cc (bolt.entries_complete Node b j n e)
        ]
  ]
