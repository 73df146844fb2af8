-- ===== src/Keyboard/Modifiers.antt =====
-- The modifier keys that the handler of device/keyboard.c tracks.
use holo_os.Base.{
  ℕ, ◌<◌, ◌≡◌, ◌⊎◌, refl, ap, ◌∙◌, Bool, true, false, not, ◌&&◌, ◌||◌, ◌==◌, if◌then◌else◌, List,
  [], ◌∷◌, arith,
}
use holo_os.Keyboard.{Keyboard, put_char, unknown_key, intr_keyboard_handler}
use holo_os.Keyboard.Table.{
  check_all, check_all_sound, same_effect, same_effect→≡, same_keyboard, same_keyboard→≡,
}

-- The bytes of one interrupt after another: the state at the end and the characters passed on.
unfoldable pub type_bytes : Keyboard → List ℕ → Keyboard × List ℕ
type_bytes k [] = (k, [])
type_bytes k (b ∷ bs) =
    let (k', e) = intr_keyboard_handler k b in
    let (last, chars) = type_bytes k' bs in (last, elim e [ put_char c ↦ c ∷ chars | _ ↦ chars ])

-- What a byte says of the modifiers. 0xe0 announces a key of the second set, of which only the
-- release of right Ctrl and right Alt counts; in the first set a key is pressed by its make code
-- and released by its make code plus 0x80.
unfoldable pub track : Keyboard → ℕ → Keyboard
track k b =
    if b == 0xe0
    then record k { ext_scancode = true }
    else (let k' = record k { ext_scancode = false } in
        if k.ext_scancode
        then (if b == 0x9d
            then record k' { ctrl_status = false }
            else if b == 0xb8
            then record k' { alt_status = false }
            else k')
        else if b == 0x1d
        then record k' { ctrl_status = true }
        else if b == 0x9d
        then record k' { ctrl_status = false }
        else if b == 0x2a || b == 0x36
        then record k' { shift_status = true }
        else if b == 0xaa || b == 0xb6
        then record k' { shift_status = false }
        else if b == 0x38
        then record k' { alt_status = true }
        else if b == 0xb8
        then record k' { alt_status = false }
        else if b == 0x3a
        then record k' { capslock_status = not k.capslock_status }
        else k')

unfoldable pub tracked : Keyboard → List ℕ → Keyboard
tracked k [] = k
tracked k (b ∷ bs) = tracked (track k b) bs

abbrev pub AreBytes : List ℕ → Type 0
AreBytes [] = Unit
AreBytes (b ∷ bs) = (b < 256) × AreBytes bs

track_check : Keyboard → ℕ → Bool
track_check k b = same_keyboard (intr_keyboard_handler k b).0 (track k b)

track_table : check_all track_check ≡ true
unfolding check_all track_check intr_keyboard_handler track
track_table = refl

track_lem : (k : Keyboard) (b : ℕ) → b < 256 → (intr_keyboard_handler k b).0 ≡ track k b
track_lem k b lt =
    same_keyboard→≡ (intr_keyboard_handler k b).0 (track k b)
      (unfold track_check in check_all_sound track_check k b track_table lt)

-- After any sequence of bytes the handler's state is that of the modifiers tracked byte by byte.
pub type_bytes-tracked :
    (k : Keyboard) (bs : List ℕ) → AreBytes bs → (type_bytes k bs).0 ≡ tracked k bs
unfolding type_bytes tracked
type_bytes-tracked k [] h = refl
type_bytes-tracked k (b ∷ bs) h =
    ap (λ t. (type_bytes t bs).0) (track_lem k b h.0) ∙ type_bytes-tracked (track k b) bs h.1

right_check : Keyboard → ℕ → Bool
right_check k b =
    let (k', e) = intr_keyboard_handler (intr_keyboard_handler k 0xe0).0 b in
    not (b == 0x1d || b == 0x38)
    || (same_effect e unknown_key && same_keyboard k' (record k { ext_scancode = false }))

right_table : check_all right_check ≡ true
unfolding check_all right_check intr_keyboard_handler
right_table = refl

-- Right Ctrl and right Alt are never seen as pressed: after the prefix 0xe0 their make codes 0x1d
-- and 0x38 are reported as an unknown key, and leave every modifier as it was.
right_key_unknown :
    (k : Keyboard) (b : ℕ)
    → (b ≡ 0x1d) ⊎ (b ≡ 0x38)
    → intr_keyboard_handler (intr_keyboard_handler k 0xe0).0 b
      ≡ (record k { ext_scancode = false }, unknown_key)
unfolding right_check
right_key_unknown k b which =
    let (k', e) = intr_keyboard_handler (intr_keyboard_handler k 0xe0).0 b in
    let before = record k { ext_scancode = false } in
    let found = check_all_sound right_check k b right_table (omega arith) in
    let effect : same_effect e unknown_key ≡ true = ground (arith, found) in
    let state : same_keyboard k' before ≡ true = ground (arith, found) in
    λ i. (same_keyboard→≡ k' before state i, same_effect→≡ e unknown_key effect i)
