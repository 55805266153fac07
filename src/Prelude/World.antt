-- ===== src/Prelude/World.antt =====
-- Go functions that act on the outside world: the world is passed from call to call.

abbrev pub Exec {ℓ κ} : Type ℓ → Type κ → Type (ℓ ⊔ κ)
Exec S A = S → A × S
