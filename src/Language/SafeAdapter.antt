-- ===== src/Language/SafeAdapter.antt =====
-- src/adapter/safe_adapter.c: which actions are let through to the simulated hardware.
use qbit_nova_c.Base.{
  Text, codes, same, same→eq, ◌≡◌, ◌↔◌, ◌⊎◌, inl, inr, refl, arith, if◌then◌else◌,
}

pub data AdapterResult : Type 0 where
  adapter_ok adapter_blocked : AdapterResult

-- The five tests, in the order of the source.
unfoldable pub adapter_dispatch_safe : (action : Text) → AdapterResult
adapter_dispatch_safe action =
    if same action (codes "led_on")
    then adapter_ok
    else if same action (codes "led_off")
    then adapter_ok
    else if same action (codes "servo_up")
    then adapter_ok
    else if same action (codes "servo_down")
    then adapter_ok
    else if same action (codes "buzzer_beep")
    then adapter_ok
    else adapter_blocked

-- The actions that are let through are exactly led_on, led_off, servo_up, servo_down and
-- buzzer_beep; every other text is blocked.
pub adapter_dispatch_safe-allows :
    (action : Text)
    → (adapter_dispatch_safe action ≡ adapter_ok) ↔ (
        (action ≡ codes "led_on")
        ⊎ (action ≡ codes "led_off")
        ⊎ (action ≡ codes "servo_up")
        ⊎ (action ≡ codes "servo_down")
        ⊎ (action ≡ codes "buzzer_beep"))
unfolding adapter_dispatch_safe same
adapter_dispatch_safe-allows action = (
  λ h. ground (
    arith,
    same→eq action (codes "led_on"),
    same→eq action (codes "led_off"),
    same→eq action (codes "servo_up"),
    same→eq action (codes "servo_down"),
    same→eq action (codes "buzzer_beep"),
    h,
  ),
  elim [
    | inl e ↦ rw e refl
    | inr (inl e) ↦ rw e refl
    | inr (inr (inl e)) ↦ rw e refl
    | inr (inr (inr (inl e))) ↦ rw e refl
    | inr (inr (inr (inr e))) ↦ rw e refl
  ],
)
