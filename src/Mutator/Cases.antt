-- ===== src/Mutator/Cases.antt =====
-- The cases 0 to 13 of the `switch` in `mutate`, which change bytes and machine words. A case answers
-- `none` where the source draws again (`iter--; continue`).
use Prim.Native.Nat.{bit_xor}
use go_fuzz.Base.{
  ℕ, zero, suc, ◌+◌, ◌-◌, ◌%◌, ◌^◌, Option, none, some, List, [], ◌∷◌, length, take, drop, map,
  Outcome, done, panic, no_fuel, ltb, leb, ◌==◌, if◌then◌else◌, u8, ◌<<<◌,
}
use go_fuzz.Bytes
use go_fuzz.Bytes.{Bytes}
use go_fuzz.Bytes.Value.{le_value, le_bytes}
use go_fuzz.Mutator.Draw.{
  Draw, pure, lift, ◌>>=◌, ByteOrder, little, big, flip, rand_byte_order, rand, choose_len,
}
use go_fuzz.Mutator.Slices.{index, store, slice, copy_to, open_gap, write_piece}

-- The values as the bit patterns of int8, and those of int16 and int32 to which `init` appends the
-- narrower ones, extended by their signs.
abbrev pub interesting8 : List ℕ
interesting8 = 0x80 ∷ 0xff ∷ 0 ∷ 1 ∷ 16 ∷ 32 ∷ 64 ∷ 100 ∷ 127 ∷ []

abbrev pub sign_extend : ℕ → ℕ → ℕ → ℕ
sign_extend narrow wide x = if ltb x (2 ^ (narrow - 1)) then x else x + (2 ^ wide - 2 ^ narrow)

abbrev pub interesting16 : List ℕ
interesting16 =
    (2 ^ 16 - 32768)
    ∷ (2 ^ 16 - 129)
    ∷ 128
    ∷ 255
    ∷ 256
    ∷ 512
    ∷ 1000
    ∷ 1024
    ∷ 4096
    ∷ 32767
    ∷ map (sign_extend 8 16) interesting8

abbrev pub interesting32 : List ℕ
interesting32 =
    (2 ^ 32 - 2147483648)
    ∷ (2 ^ 32 - 100663046)
    ∷ (2 ^ 32 - 32769)
    ∷ 32768
    ∷ 65535
    ∷ 65536
    ∷ 100663045
    ∷ 2147483647
    ∷ map (sign_extend 16 32) interesting16

-- `enc.Uint16`, `enc.Uint32` and `enc.Uint64` of the first `size` bytes, and the `Put` methods.
abbrev pub read_word : ByteOrder → ℕ → Bytes → ℕ
read_word little size buf = le_value (take size buf)
read_word big size buf = le_value (Bytes.reverse (take size buf))

abbrev pub word_bytes : ByteOrder → ℕ → ℕ → Bytes
word_bytes little size v = le_bytes size v
word_bytes big size v = Bytes.reverse (le_bytes size v)

-- `enc.PutUintN(res[pos:], v)`
unfoldable pub put_word : ByteOrder → ℕ → Bytes → ℕ → ℕ → Outcome Bytes
unfolding write_piece
put_word order size res pos v =
    if ltb (length res) (pos + size) then panic else write_piece res pos (word_bytes order size v)

-- `enc.UintN(res[pos:])`
unfoldable pub get_word : ByteOrder → ℕ → Bytes → ℕ → Outcome ℕ
get_word order size res pos =
    if ltb (length res) (pos + size) then panic else done (read_word order size (drop pos res))

module _ (fuel : ℕ) where
  -- case 0
  unfoldable pub remove_range : Bytes → Draw (Option Bytes)
  unfolding rand choose_len slice copy_to
  remove_range res = if leb (length res) 1 then pure none else do
    pos0 ← rand fuel (length res)
    n ← choose_len fuel (length res - pos0)
    let pos1 = pos0 + n
    tail ← lift (slice res pos1 (length res))
    moved ← lift (copy_to res pos0 (length res) tail)
    shorter ← lift (slice moved 0 (length res - (pos1 - pos0)))
    pure (some shorter)

  -- `for i := 0; i < n; i++ { res[pos+i] = byte(m.rand(256)) }`
  unfoldable pub fill_random : ℕ → Bytes → ℕ → Draw Bytes
  unfolding rand store
  fill_random zero res pos = pure res
  fill_random (suc n) res pos = do
    b ← rand fuel 256
    res' ← lift (store res pos (u8 b))
    fill_random n res' (pos + 1)

  -- case 1
  unfoldable pub insert_random : Bytes → Draw (Option Bytes)
  unfolding rand choose_len open_gap fill_random
  insert_random res = do
    pos ← rand fuel (length res + 1)
    n ← choose_len fuel 10
    gapped ← lift (open_gap res pos n)
    filled ← fill_random n gapped pos
    pure (some filled)

  -- `for dst == src { dst = m.rand(len(res)) }`, on fuel
  unfoldable pub other_than : ℕ → ℕ → ℕ → ℕ → Draw ℕ
  unfolding rand
  other_than zero n src dst = if dst == src then lift no_fuel else pure dst
  other_than (suc tries) n src dst =
      let again = (do dst' ← rand fuel n; other_than tries n src dst') in
      if dst == src then again else pure dst

  -- case 2
  unfoldable pub duplicate_range : Bytes → Draw (Option Bytes)
  unfolding rand choose_len other_than slice open_gap write_piece
  duplicate_range res = if leb (length res) 1 then pure none else do
    src ← rand fuel (length res)
    dst0 ← rand fuel (length res)
    dst ← other_than fuel (length res) src dst0
    n ← choose_len fuel (length res - src)
    piece ← lift (slice res src (src + n))
    gapped ← lift (open_gap res dst n)
    written ← lift (write_piece gapped dst piece)
    pure (some written)

  -- case 3
  unfoldable pub copy_range : Bytes → Draw (Option Bytes)
  unfolding rand choose_len other_than slice copy_to
  copy_range res = if leb (length res) 1 then pure none else do
    src ← rand fuel (length res)
    dst0 ← rand fuel (length res)
    dst ← other_than fuel (length res) src dst0
    n ← choose_len fuel (length res - src)
    piece ← lift (slice res src (src + n))
    copied ← lift (copy_to res dst (length res) piece)
    pure (some copied)

  -- A byte at a random place is replaced by a function of it; the place is drawn first.
  unfoldable pub change_byte : Draw (ℕ → ℕ) → Bytes → Draw (Option Bytes)
  unfolding rand index store
  change_byte change res = if length res == 0 then pure none else do
    pos ← rand fuel (length res)
    f ← change
    old ← lift (index res pos)
    changed ← lift (store res pos (f old))
    pure (some changed)

  -- case 4
  unfoldable pub bit_flip : Bytes → Draw (Option Bytes)
  unfolding change_byte
  bit_flip = change_byte (do k ← rand fuel 8; pure (λ b. bit_xor b (1 <<< k)))

  -- case 5: the new value differs from the old one
  unfoldable pub set_byte : Bytes → Draw (Option Bytes)
  unfolding change_byte
  set_byte = change_byte (do k ← rand fuel 255; pure (λ b. bit_xor b (u8 (u8 k + 1))))

  -- case 6
  unfoldable pub swap_bytes : Bytes → Draw (Option Bytes)
  unfolding rand other_than index store
  swap_bytes res = if leb (length res) 1 then pure none else do
    src ← rand fuel (length res)
    dst0 ← rand fuel (length res)
    dst ← other_than fuel (length res) src dst0
    a ← lift (index res src)
    b ← lift (index res dst)
    one ← lift (store res src b)
    two ← lift (store one dst a)
    pure (some two)

  -- case 7
  unfoldable pub add_to_byte : Bytes → Draw (Option Bytes)
  unfolding change_byte
  add_to_byte = change_byte (do
    k ← rand fuel 35
    let v = u8 (k + 1)
    up ← flip
    pure (λ b. if up then u8 (b + v) else u8 (b + 256 - v)))

  -- cases 8, 9 and 10, for words of 2, 4 and 8 bytes
  unfoldable pub add_to_word : ℕ → Bytes → Draw (Option Bytes)
  unfolding rand rand_byte_order get_word put_word
  add_to_word size res = if ltb (length res) size then pure none else do
    pos ← rand fuel (length res - (size - 1))
    k ← rand fuel 35
    down ← flip
    let v = if down then 256 ^ size - (k + 1) else k + 1
    order ← rand_byte_order
    old ← lift (get_word order size res pos)
    changed ← lift (put_word order size res pos ((old + v) % 256 ^ size))
    pure (some changed)

  -- case 11
  unfoldable pub interesting_byte : Bytes → Draw (Option Bytes)
  unfolding rand index store
  interesting_byte res = if length res == 0 then pure none else do
    pos ← rand fuel (length res)
    k ← rand fuel (length interesting8)
    v ← lift (index interesting8 k)
    changed ← lift (store res pos v)
    pure (some changed)

  -- cases 12 and 13
  unfoldable pub interesting_word : ℕ → List ℕ → Bytes → Draw (Option Bytes)
  unfolding rand rand_byte_order index put_word
  interesting_word size values res = if ltb (length res) size then pure none else do
    pos ← rand fuel (length res - (size - 1))
    k ← rand fuel (length values)
    v ← lift (index values k)
    order ← rand_byte_order
    changed ← lift (put_word order size res pos v)
    pure (some changed)
