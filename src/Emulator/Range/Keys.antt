-- ===== src/Emulator/Range/Keys.antt =====
-- `handle_key` keeps the axes in range.
use rc_monitor.Base.{ℕ, List, [], ◌∷◌, ◌++◌, All, All-append, ◌==◌}
use rc_monitor.Emulator.{EmuState}
use rc_monitor.Emulator.Input.{
  Curses, stick_cases, button_cases, mode_cases, wheel_cases, switch, handle_key,
}
use rc_monitor.Emulator.Axes.{Preserves, if_InRange, clamp_axis-Axis, small, centred-InRange}

stick_cases-Preserves : (k : Curses) → All (λ c. Preserves c.1) (stick_cases k)
stick_cases-Preserves k = (
  (λ e h. (h.0, clamp_axis-Axis _, h.2, h.3, h.4, h.5, h.6)),
  (
    (λ e h. (h.0, clamp_axis-Axis _, h.2, h.3, h.4, h.5, h.6)),
    (
      (λ e h. (clamp_axis-Axis _, h.1, h.2, h.3, h.4, h.5, h.6)),
      (
        (λ e h. (clamp_axis-Axis _, h.1, h.2, h.3, h.4, h.5, h.6)),
        (
          (λ e h. (h.0, h.1, h.2, clamp_axis-Axis _, h.4, h.5, h.6)),
          (
            (λ e h. (h.0, h.1, h.2, clamp_axis-Axis _, h.4, h.5, h.6)),
            (
              (λ e h. (h.0, h.1, clamp_axis-Axis _, h.3, h.4, h.5, h.6)),
              ((λ e h. (h.0, h.1, clamp_axis-Axis _, h.3, h.4, h.5, h.6)), tt),
            ),
          ),
        ),
      ),
    ),
  ),
)

button_cases-Preserves : All (λ c. Preserves c.1) button_cases
button_cases-Preserves = (
  (λ e h. h),
  (
    (λ e h. h),
    (
      (λ e h. h),
      (
        (λ e h. h),
        (
          (λ e h. h),
          (
            (λ e h. h),
            ((λ e h. h), ((λ e h. h), ((λ e h. h), ((λ e h. h), ((λ e h. h), ((λ e h. h), tt)))))),
          ),
        ),
      ),
    ),
  ),
)

mode_cases-Preserves : All (λ c. Preserves c.1) mode_cases
mode_cases-Preserves = ((λ e h. h), ((λ e h. h), ((λ e h. h), tt)))

wheel_cases-Preserves : All (λ c. Preserves c.1) wheel_cases
wheel_cases-Preserves = (
  (λ e h. (h.0, h.1, h.2, h.3, clamp_axis-Axis _, h.5, h.6)),
  (
    (λ e h. (h.0, h.1, h.2, h.3, clamp_axis-Axis _, h.5, h.6)),
    (
      (λ e h. (h.0, h.1, h.2, h.3, h.4, clamp_axis-Axis _, h.6)),
      (
        (λ e h. (h.0, h.1, h.2, h.3, h.4, clamp_axis-Axis _, h.6)),
        (
          (λ e h. (h.0, h.1, h.2, h.3, h.4, h.5, small.0)),
          ((λ e h. (h.0, h.1, h.2, h.3, h.4, h.5, small.1)), ((λ e h. centred-InRange), tt)),
        ),
      ),
    ),
  ),
)

switch-Preserves :
    (cs : List (ℕ × (EmuState → EmuState))) (ch : ℕ)
    → All (λ c. Preserves c.1) cs
    → Preserves (switch cs ch)
unfolding switch
switch-Preserves [] ch all e h = h
switch-Preserves (c ∷ cs) ch all e h =
    if_InRange (c.0 == ch) (c.1 e) (switch cs ch e) (all.0 e h) (switch-Preserves cs ch all.1 e h)

pub handle_key-Preserves : (k : Curses) (ch : ℕ) → Preserves (λ e. handle_key k e ch)
unfolding handle_key
handle_key-Preserves k ch =
    switch-Preserves (stick_cases k ++ (button_cases ++ (mode_cases ++ wheel_cases))) ch (
      All-append (λ c. Preserves c.1) (stick_cases k) (button_cases ++ (mode_cases ++ wheel_cases))
        (stick_cases-Preserves k)
        (All-append (λ c. Preserves c.1) button_cases (mode_cases ++ wheel_cases)
          button_cases-Preserves
          (All-append (λ c. Preserves c.1) mode_cases wheel_cases mode_cases-Preserves
            wheel_cases-Preserves)))
