-- ===== src/Wire/Offsets.antt =====
-- Fields inside a list of bytes, for `u16` and `u32` of tools/viewer/web/app.js at any offset.
use open_fpgastudio.Base.{
  ℕ, zero, suc, ◌+◌, ◌^◌, ◌<◌, ◌≡◌, refl, sym, ap, ◌∙◌, List, [], ◌∷◌, ◌++◌, drop, arith,
}
use open_fpgastudio.Wire.{u16, u32, push_u16, push_u32, byte_at}
use open_fpgastudio.Wire.Fields.{u16-push_u16, u32-push_u32}

byte_at-drop : (i k : ℕ) (q : List ℕ) → byte_at (drop i q) k ≡ byte_at q (i + k)
byte_at-drop zero k q = ap (byte_at q) (omega arith)
byte_at-drop (suc i) k [] = refl
byte_at-drop (suc i) k (b ∷ q) = byte_at-drop i k q ∙ ap (byte_at (b ∷ q)) next
  where
    next : suc (i + k) ≡ suc i + k
    next = omega arith

head-drop : (i : ℕ) (q : List ℕ) → byte_at (drop i q) 0 ≡ byte_at q i
head-drop i q = byte_at-drop i 0 q ∙ ap (byte_at q) (omega arith)

u16-drop : (i : ℕ) (q : List ℕ) → u16 (drop i q) 0 ≡ u16 q i
unfolding u16
u16-drop i q = rw (head-drop i q, byte_at-drop i 1 q)

u32-drop : (i : ℕ) (q : List ℕ) → u32 (drop i q) 0 ≡ u32 q i
unfolding u32
u32-drop i q = rw (head-drop i q, byte_at-drop i 1 q, byte_at-drop i 2 q, byte_at-drop i 3 q)

-- A field stands where the rest of the payload begins with its bytes.
pub u16_at :
    (q rest : List ℕ) (i v : ℕ) → drop i q ≡ push_u16 [] v ++ rest → v < 2 ^ 16 → u16 q i ≡ v
u16_at q rest i v e h = sym (u16-drop i q) ∙ ap (λ xs. u16 xs 0) e ∙ u16-push_u16 [] rest v h

pub u32_at :
    (q rest : List ℕ) (i v : ℕ) → drop i q ≡ push_u32 [] v ++ rest → v < 2 ^ 32 → u32 q i ≡ v
u32_at q rest i v e h = sym (u32-drop i q) ∙ ap (λ xs. u32 xs 0) e ∙ u32-push_u32 [] rest v h
