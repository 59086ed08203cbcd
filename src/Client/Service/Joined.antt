-- ===== src/Client/Service/Joined.antt =====
-- The whole exchange of a client with the service of a controller.
use omm.Prelude.{String, ℕ, Bool, ◌≡◌}
use omm.Models.{Enrollment, active}
use omm.Identity.{Crypto, node_id_from_public_key_der}
use omm.Store.Bolt.{Bolt}
use omm.Store.Db.{Db}
use omm.Store.Enrollments as Store
use omm.Enrollment as Enrollment
use omm.Enrollment.{Options, Env, Reply, RequestResult, Outcome}
use omm.Client.{Identity}
use omm.Client.Service.{Serving, IsAdopting}
use omm.Client.Service.Active.{HasStatus}

module _ (bolt : Bolt) (crypto : Crypto) (opts : Options) (env : Env) (on_link : Bool)
    (others : ℕ → Db bolt → Db bolt) (fair : IsAdopting bolt crypto opts env on_link others) where
  abbrev Served : Type 0
  Served = Serving bolt crypto opts env on_link

  -- The reply and the record are active.
  abbrev Ends : String → Reply → Db bolt → Type 0
  Ends id r db = (r.status ≡ active) × HasStatus bolt crypto opts env on_link id active db

  -- The answer to the request that the client makes with its key.
  abbrev pub challenged : Identity → String → Db bolt → Outcome RequestResult
  challenged id serial db =
      (Enrollment.request bolt crypto opts env
        (record {
          node_id = node_id_from_public_key_der crypto id.public_key_der;
          serial = serial;
          public_key = id.public_key_der;
        })
        db).0
