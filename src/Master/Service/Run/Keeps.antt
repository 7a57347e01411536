-- ===== src/Master/Service/Run/Keeps.antt =====
-- The helpers of the handlers of src/master/control_service.cpp, and a property of the world.
use distributed_computing.Json.{JsonLib}
use distributed_computing.Prelude.{Option, none, some, ◌≡◌, refl}
use distributed_computing.Broker.Retry.{Outcome, returned, threw, World}
use distributed_computing.Master.Mappers.Parse.{Parsed, accepted, refused}
use distributed_computing.Master.Service.{
  Response, Handler, catch_db, with_parsed, with_json, with_some,
}

module _ (j : JsonLib) {S : Type 0} (K : World S → Type 0) where
  abbrev pub Keeps : Handler j S → Type 0
  Keeps h = (w : World S) → K w → K (h w).1

  -- A call of the broker whose result is what the continuation may rely on.
  pub catch_db-Keeps :
      {A : Type 0} (p : Outcome A × World S) (continue : A → Handler j S)
      → K p.1
      → ((a : A) → p.0 ≡ returned a → K (continue a p.1).1)
      → K (catch_db j p continue).1
  catch_db-Keeps (returned a, w) continue h next = next a refl
  catch_db-Keeps (threw m, w) continue h next = h

  pub with_parsed-Keeps :
      {A : Type 0} (p : Parsed A) (continue : A → Handler j S)
      → ((a : A) → Keeps (continue a))
      → Keeps (with_parsed j p continue)
  with_parsed-Keeps (accepted a) continue next w h = next a w h
  with_parsed-Keeps (refused m) continue next w h = h

  pub with_json-Keeps :
      (p : Parsed j.Json) (continue : j.Json → Handler j S)
      → ((a : j.Json) → Keeps (continue a))
      → Keeps (with_json j p continue)
  with_json-Keeps (accepted a) continue next w h = next a w h
  with_json-Keeps (refused m) continue next w h = h

  pub with_some-Keeps :
      {A : Type 0} (o : Option A) (otherwise : Response j) (continue : A → Handler j S)
      (w : World S)
      → K w
      → ((a : A) → o ≡ some a → K (continue a w).1)
      → K (with_some j o otherwise continue w).1
  with_some-Keeps none otherwise continue w h next = h
  with_some-Keeps (some a) otherwise continue w h next = next a refl

  pub by_option-Keeps :
      {A : Type 0} (o : Option A) (absent : Handler j S) (present : A → Handler j S)
      → Keeps absent
      → ((a : A) → Keeps (present a))
      → Keeps (elim o [ none ↦ absent | some a ↦ present a ])
  by_option-Keeps none absent present k next = k
  by_option-Keeps (some a) absent present k next = next a
