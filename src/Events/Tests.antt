-- ===== src/Events/Tests.antt =====
-- Events of a small transaction.
use qorechain_rdk.Prelude.{◌≡◌, refl, some, [], ◌∷◌}
use qorechain_rdk.Text.{js}
use qorechain_rdk.Events.{set_attribute, find_rdk_event}

later_value_counts :
    find_rdk_event
      (record { event_type = js "transfer"; attributes = [] }
        ∷ record {
          event_type = js "batch_submitted";
          attributes = (js "i", js "1") ∷ (js "i", js "2") ∷ [];
        }
        ∷ [])
      (js "batch_submitted")
    ≡ some (record {
      event_type = js "batch_submitted";
      attributes = (js "i", js "2") ∷ (js "i", js "1") ∷ [];
    })
unfolding find_rdk_event set_attribute
later_value_counts = refl
