-- ===== src/Tests/Registry.antt =====
-- The theorems on the contract at concrete inputs.
use stellartrace.Prelude.{◌≡◌, ◌≢◌, refl, some, [], ◌∷◌}
use stellartrace.Registry.{Storage, Env, done, confirmed_fraud, get_flag, is_flagged, is_some}
use stellartrace.Registry.Access.{
  flagging, perform, flag_after, unauthorized-unchanged, get_flag-perform,
}

abbrev managed : Storage
managed = record { admin = some "GADMIN"; flags = [] }

abbrev stranger : Env
stranger = record { authorized = "GEVE" ∷ []; timestamp = 5 }

abbrev operator : Env
operator = record { authorized = "GADMIN" ∷ []; timestamp = 5 }

unauthorized-unchanged_example :
    ((perform managed (flagging stranger "GBOB" confirmed_fraud)).0 ≡ managed)
    × ((perform managed (flagging stranger "GBOB" confirmed_fraud)).1 ≢ done)
unauthorized-unchanged_example =
    unauthorized-unchanged managed (flagging stranger "GBOB" confirmed_fraud) "GADMIN" refl refl

get_flag-perform_example :
    (get_flag (perform managed (flagging operator "GBOB" confirmed_fraud)).0 "GBOB"
      ≡ flag_after
          (flagging operator "GBOB" confirmed_fraud)
          (perform managed (flagging operator "GBOB" confirmed_fraud)).1
          "GBOB"
          (get_flag managed "GBOB"))
    × (is_flagged managed "GBOB" ≡ is_some (get_flag managed "GBOB"))
get_flag-perform_example =
    get_flag-perform managed (flagging operator "GBOB" confirmed_fraud) "GBOB"
