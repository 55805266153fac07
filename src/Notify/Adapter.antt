-- ===== src/Notify/Adapter.antt =====
-- The manager behind the adapter of internal/app is what internal/refresh asks of a notifier.
use mtlogin.Prelude.{String, ◌≡◌, refl, ◌∙◌, List, [], ◌∷◌, All, Bool-cases, inl, inr}
use mtlogin.Context.{Ctx}
use mtlogin.Store.Contract.{StoreView}
use mtlogin.Refresh.Contracts.{Notifier}
use mtlogin.Notify.Manager.{
  Message, Managed, Manager, send_context, deliver, notify, adapted_notify,
}

module _ {W : Type 0} (view : W → StoreView) where
  -- A channel leaves the store alone.
  unfoldable pub Apart : Managed W → Type 0
  Apart item = (c : Ctx) (title body : String) (w : W) → view (item.send c title body w).1 ≡ view w

  deliver-view :
      (c : Ctx) (msg : Message) (items : List (Managed W))
      → All Apart items
      → (w : W) → view (deliver c msg items w).1 ≡ view w
  unfolding Apart
  deliver-view c msg [] h w = refl
  deliver-view c msg (item ∷ items) h w =
      deliver-view c msg items h.1 (item.send (send_context item c) msg.title msg.body w).1
      ∙ h.0 (send_context item c) msg.title msg.body w

  module _ (schedule : List (Managed W) → W → List (Managed W)) (m : Manager W)
      (apart : (w : W) → All Apart (schedule m.notifiers w)) where
    pub notify-view :
        (c : Ctx) (msg : Message) (w : W) → view (notify schedule m c msg w).1 ≡ view w
    unfolding notify
    notify-view c msg w = elim (Bool-cases m.closing) [
      | inl h ↦ rw (h) refl
      | inr h ↦ rw (h) (deliver-view c msg (schedule m.notifiers w) (apart w) w)
    ]

    abbrev pub adapted_notifier : Notifier W view
    adapted_notifier = record {
      notify = adapted_notify schedule m;
      notify_keeps = λ c r w. notify-view c _ w;
    }
