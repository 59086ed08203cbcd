-- ===== src/Client/Recorded.antt =====
-- The Home that a join leaves in the store of the device.
use text.Mathlib.Text.{starts_with}
use omm.Prelude.{
  String, ℕ, Bool, true, false, ◌≡◌, refl, Option-cases, Bool-cases, inl, inr, Option, none, some,
  ◌==◌, if◌then◌else◌, not, is_empty,
}
use omm.Prelude.Int.{ℤ}
use omm.Models.{Bytes, Home}
use omm.Api.Response.{write_json, home_body}
use omm.Identity.{Crypto}
use omm.Enrollment.{Reply}
use omm.Store.Bolt.{Bolt}
use omm.Store.Result.{ok}
use omm.Store.Db.{Db}
use omm.Store.Records.{get_home, upsert_home}
use omm.Store.Reads.{get_home-upsert_home, certificate_or, to_option}
use omm.Store.Invariant.{IsConsistent}
use omm.Client.{
  Identity, Tls, Controller, Transport, mutual_tls, get_home as asks_home, decoded, is_success,
  authenticated_client, client_tls_config, join, join_and_record, record_home, remote_home,
  protected_transport, joined_home,
}

-- The result names the Home that was joined.
abbrev pub names_home : Option Reply → Bool
names_home none = false
names_home (some reply) = not (reply.home_id == "")

module _ (crypto : Crypto) (c : Controller) (bolt : Bolt) (tls : Tls) (now : ℤ) (ticks : ℕ)
    (id : Identity) (url serial : String) (p : c.Peer) (db : Db bolt) where
  -- The reply comes with certificates that TLS takes, over a URL that uses it.
  abbrev pub IsPinned : Reply → Bytes → Bytes → Type 0
  IsPinned reply leaf ca =
      (reply.certificate ≡ some leaf)
      × (reply.ca_certificate ≡ some ca)
      × (is_empty leaf ≡ false)
      × (is_empty ca ≡ false)
      × (starts_with url "https://" ≡ true)
      × (tls.x509_key_pair leaf id.private_key_pem ≡ true)
      × (tls.append_certs_from_pem ca ≡ true)

  -- The Home as the controller gave it, with its id, the time of the join, and the CA where it has
  -- no certificate.
  abbrev pub pinned_home : String → Bytes → Home → Home
  pinned_home home_id ca home = record {
    id = if home.id == "" then home_id else home.id;
    name = home.name;
    controller = home.controller;
    bssid = home.bssid;
    certificate = if is_empty home.certificate then ca else home.certificate;
    last_seen = now;
  }

  pinned-protected_transport :
      (reply : Reply) (leaf ca : Bytes)
      → IsPinned reply leaf ca
      → protected_transport crypto c tls id url reply ≡ mutual_tls leaf id.private_key_pem ca
  unfolding protected_transport authenticated_client client_tls_config
  pinned-protected_transport reply leaf ca (l, a, nl, na, https, pair, pool) =
      rw (l, a, nl, na, https, pair, pool) refl

  pinned-joined_home :
      (reply : Reply) (home : Home) (leaf ca : Bytes)
      → IsPinned reply leaf ca
      → joined_home crypto c now reply home ≡ pinned_home reply.home_id ca home
  unfolding joined_home
  pinned-joined_home reply home leaf ca (l, a, nl, na, https, pair, pool) = rw a refl

  answered :
      (home_id : String) (home : Home) (t : Transport) (p : c.Peer)
      → (c.send t (asks_home home_id) p).0 ≡ some (write_json 200 (home_body home))
      → (remote_home crypto c t home_id p).0 ≡ some home
  unfolding remote_home decoded is_success
  answered home_id home t p h = rw h refl

  -- JoinAndRecord gives the result of Join, and if that is an error or names no Home, the
  -- store stays as it was.
  pub join_and_record_result :
      let r = join_and_record crypto c bolt tls now ticks id url serial p db in
      let joined = join crypto c ticks id url serial p in
      (r.0 ≡ joined.0) × (r.2 ≡ (if names_home joined.0 then r.2 else db))
  unfolding join_and_record
  join_and_record_result = elim (Option-cases (join crypto c ticks id url serial p).0) [
    | inl e ↦ rw (e, join_and_record) (refl, refl)
    | inr (reply, e) ↦ elim (Bool-cases (reply.home_id == "")) [
      | inl b ↦ rw (e, join_and_record, b) (refl, refl)
      | inr b ↦ rw (e, join_and_record, b) (refl, refl)
    ]
  ]

  -- If Join over an https URL gives a reply that names its Home and has a certificate and a CA
  -- that TLS takes, the controller then answers with that Home to the client that shows this
  -- certificate and trusts this CA, and the store, which is consistent, takes it, the Home
  -- reads back as the controller gave it with its id, the time of the join, and the
  -- certificate that was stored before if the Home was known, or else its own, or if that is
  -- empty the CA of the reply; every other Home reads as before.
  pub join_and_record_home :
      (reply : Reply) (home : Home) (leaf ca : Bytes) (j : String)
      → (join crypto c ticks id url serial p).0 ≡ some reply
      → (reply.home_id == "") ≡ false
      → IsPinned reply leaf ca
      → (c.send
          (mutual_tls leaf id.private_key_pem ca)
          (asks_home reply.home_id)
          (join crypto c ticks id url serial p).2).0
        ≡ some (write_json 200 (home_body home))
      → IsConsistent bolt db
      → (upsert_home bolt (pinned_home reply.home_id ca home) db).0 ≡ ok tt
      → let pinned = pinned_home reply.home_id ca home in
        (get_home bolt j (join_and_record crypto c bolt tls now ticks id url serial p db).2).0 ≡ (
          if pinned.id == j
          then ok (record pinned {
            certificate =
                certificate_or pinned.certificate (to_option (get_home bolt pinned.id db).0);
          })
          else (get_home bolt j db).0)
  unfolding join_and_record record_home
  join_and_record_home reply home leaf ca j e b pinned answer consistent stored =
      let over = pinned-protected_transport reply leaf ca pinned in
      let same = pinned-joined_home reply home leaf ca pinned in
      let asked : (remote_home crypto c (mutual_tls leaf id.private_key_pem ca) reply.home_id
            (join crypto c ticks id url serial p).2).0
          ≡ some home =
        answered reply.home_id home _ _ answer in
      rw (e, join_and_record, b, over, asked, record_home, same)
        (get_home-upsert_home bolt (pinned_home reply.home_id ca home) db j consistent stored)
