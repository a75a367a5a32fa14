-- ===== src/Keyboard/Tests.antt =====
-- Examples of src/kernel/drv/keyboard/sc2kc.c at concrete scancodes.
use lizarx.Prelude.{◌≡◌, refl, none, some}
use lizarx.Keyboard.{translate_scancode}

-- The scancode 83 is the only one of the first 89 whose keycode is another number that is not 0.
moved_key : translate_scancode 0 83 ≡ some 84
unfolding translate_scancode
moved_key = refl

-- A break code lies behind the table.
break_code : translate_scancode 0 0x9c ≡ none
unfolding translate_scancode
break_code = refl

enter_key : translate_scancode 1 28 ≡ some 96
unfolding translate_scancode
enter_key = refl
