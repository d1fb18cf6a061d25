-- ===== src/Examples/Driver.antt =====
-- The display driver of driver/src/Driver.cpp at concrete inputs.
use m_extender.Prelude.{◌≡◌, ◌≢◌, refl, true, false, [], ◌∷◌, some, none}
use m_extender.Driver.Consumer.{
  Consumer, bound, pending, terminate, new_frame, acquired, break, run_core,
}
use m_extender.Driver.Consumer.Shutdown.{terminate_stops}
use m_extender.Driver.Processor.{create, destroy, waits, serves}
use m_extender.Driver.Processor.Ended.{destroy_ends}

abbrev healthy : Consumer
healthy = record { has_frame_event = true; has_terminate_event = true; retry_count = 3 }

terminate_stops_example :
    (run_core bound (pending new_frame ∷ acquired true ∷ []) healthy ≢ break)
    × (run_core bound (pending new_frame ∷ acquired true ∷ pending terminate ∷ []) healthy ≡ break)
terminate_stops_example =
    terminate_stops (pending new_frame ∷ acquired true ∷ []) healthy (tt, (refl, tt)) (refl, refl)

destroy_ends_example :
    (destroy bound
        (pending new_frame ∷ acquired true ∷ [])
        (serves true ∷ waits true ∷ [])
        (create 70 true true true)
      ≡ none)
    × (destroy bound
          (pending new_frame ∷ acquired true ∷ [])
          (serves true ∷ waits true ∷ waits false ∷ serves true ∷ [])
          (create 70 true true true)
        ≡ some (record (create 70 true true true) {
          swap_chain = none;
          running = false;
          deleted = 70 ∷ [];
        }))
destroy_ends_example =
    destroy_ends 70 (pending new_frame ∷ acquired true ∷ []) (serves true ∷ waits true ∷ [])
      (serves true ∷ []) (tt, (refl, tt)) (refl, (refl, tt))
