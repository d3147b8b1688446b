-- ===== src/App/Main/Ticks.antt =====
-- What a tick of main's wheel does, in whichever order it makes its callbacks.
use mathlib.Core.List.{Permᴰ}
use blockchain_messaging_sys.Prelude.{ℕ, suc, ◌≡◌, refl, ap, ◌∙◌, List, emplace, modify, ℕ_discrete}
use blockchain_messaging_sys.Redis.{Redis}
use blockchain_messaging_sys.Slot.TimerWheel.{tick, subscribe}
use blockchain_messaging_sys.App.Startup.{on_slot_start, on_save}
use blockchain_messaging_sys.App.Main.{
  Callback, main_wheel, Ticked, run_callback, run_callbacks, on_tick,
}

module _ (redis : Redis) (now : ℕ) where
  commute :
      (c d : Callback) (t : Ticked redis)
      → run_callback redis now c (run_callback redis now d t)
        ≡ run_callback redis now d (run_callback redis now c t)
  unfolding run_callback
  commute Callback.slot_start Callback.slot_start t = refl
  commute Callback.slot_start Callback.handle_slot t = refl
  commute Callback.slot_start Callback.save t = refl
  commute Callback.handle_slot Callback.slot_start t = refl
  commute Callback.handle_slot Callback.handle_slot t = refl
  commute Callback.handle_slot Callback.save t = refl
  commute Callback.save Callback.slot_start t = refl
  commute Callback.save Callback.handle_slot t = refl
  commute Callback.save Callback.save t = refl

  run_callbacks_permᴰ :
      {cs ds : List Callback}
      → Permᴰ cs ds
      → (t : Ticked redis) → run_callbacks redis now cs t ≡ run_callbacks redis now ds t
  unfolding run_callbacks
  run_callbacks_permᴰ Permᴰ.nil t = refl
  run_callbacks_permᴰ (Permᴰ.trans h k) t = run_callbacks_permᴰ h t ∙ run_callbacks_permᴰ k t
  run_callbacks_permᴰ (Permᴰ.cons {b} {l₁} e h) t =
      ap (λ c. run_callbacks redis now l₁ (run_callback redis now c t)) e
      ∙ run_callbacks_permᴰ h (run_callback redis now b t)
  run_callbacks_permᴰ (Permᴰ.swap {a} {a'} {b'} {l} e f) t =
      ap (λ c. run_callbacks redis now l (run_callback redis now c (run_callback redis now a t))) f
      ∙ ap (run_callbacks redis now l) (commute a' a t)
      ∙ ap (λ c. run_callbacks redis now l (run_callback redis now c (run_callback redis now a' t)))
          e

  -- In whichever order the hash table makes the callbacks of main, a tick prepares the slot's
  -- condition and contexts, saves the database if the slot is a multiple of 120, and starts one
  -- slot handler. What the started handler does meanwhile is not part of the tick.
  pub on_tick_lem :
      (order : List Callback)
      → Permᴰ order (tick main_wheel)
      → (t : Ticked redis)
      → (run_callbacks redis now order t ≡ on_tick redis now t)
        × (on_tick redis now t ≡ record {
          storage = on_slot_start now t.storage;
          db = on_save redis now t.db;
          started = suc t.started;
        })
  unfolding on_tick run_callbacks run_callback tick main_wheel subscribe emplace modify ℕ_discrete
  on_tick_lem order h t = (run_callbacks_permᴰ h t, refl)
