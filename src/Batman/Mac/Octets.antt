-- ===== src/Batman/Mac/Octets.antt =====
-- The octets of a derived MAC.
use omm.Prelude.{ℕ, zero, suc, ◌+◌, ◌*◌, ◌/◌, ◌%◌, ◌^◌, ◌<◌, ◌≡◌, ◌↔◌, refl, ap, arith}
use omm.Batman.Mac.{Mac, xor, or, and_not, local_unicast, derive}

pub xor_bound : (bits a b : ℕ) → xor bits a b < 2 ^ bits
unfolding xor
xor_bound zero a b = omega arith
xor_bound (suc bits) a b = let rest = xor_bound bits (a / 2) (b / 2) in omega (arith, rest)

-- The same number added on both sides by `^` can be taken away.
pub xor_cancel :
    (bits a a' b : ℕ) → a < 2 ^ bits → a' < 2 ^ bits → xor bits a b ≡ xor bits a' b → a ≡ a'
unfolding xor
xor_cancel zero a a' b h h' e = omega (arith, h, h')
xor_cancel (suc bits) a a' b h h' e =
    let low : (a + b) % 2 ≡ (a' + b) % 2 = omega (arith, e) in
    let high : xor bits (a / 2) (b / 2) ≡ xor bits (a' / 2) (b / 2) = omega (arith, e) in
    let half =
      xor_cancel bits (a / 2) (a' / 2) (b / 2) (omega (arith, h)) (omega (arith, h')) high in
    omega (arith, low, half)

xor_comm : (bits a b : ℕ) → xor bits a b ≡ xor bits b a
unfolding xor
xor_comm zero a b = refl
xor_comm (suc bits) a b = let rest = xor_comm bits (a / 2) (b / 2) in omega (arith, rest)

or_zero : (bits a : ℕ) → a < 2 ^ bits → or bits a 0 ≡ a
unfolding or
or_zero zero a h = omega (arith, h)
or_zero (suc bits) a h = let rest = or_zero bits (a / 2) (omega (arith, h)) in omega (arith, rest)

and_not_zero : (bits a : ℕ) → a < 2 ^ bits → and_not bits a 0 ≡ a
unfolding and_not
and_not_zero zero a h = omega (arith, h)
and_not_zero (suc bits) a h =
    let rest = and_not_zero bits (a / 2) (omega (arith, h)) in omega (arith, rest)

-- `| 0x02` sets bit 1.
or_two : (b : ℕ) → b < 256 → or 8 b 2 ≡ b / 4 * 4 + 2 + b % 2
unfolding or
or_two b h =
    let high : or 6 (b / 2 / 2) 0 ≡ b / 2 / 2 = or_zero 6 (b / 2 / 2) (omega (arith, h)) in
    omega (arith, high)

-- `&^ 0x01` clears bit 0.
and_not_one : (b : ℕ) → b < 256 → and_not 8 b 1 ≡ b / 2 * 2
unfolding and_not
and_not_one b h =
    let high : and_not 7 (b / 2) 0 ≡ b / 2 = and_not_zero 7 (b / 2) (omega (arith, h)) in
    omega (arith, high)

local_unicast_lem : (b : ℕ) → b < 256 → local_unicast b ≡ b / 4 * 4 + 2
unfolding local_unicast
local_unicast_lem b h =
    let set = or_two b h in
    let cleared = and_not_one (or 8 b 2) (omega (arith, h, set)) in omega (arith, set, cleared)

-- Every octet is a byte.
abbrev pub IsMac : Mac → Type 0
IsMac m = (m.o0 < 256) × (m.o1 < 256) × (m.o2 < 256) × (m.o3 < 256) × (m.o4 < 256) × (m.o5 < 256)

-- The MAC derived from six bytes is six bytes, the first with the bit of a local address set
-- and that of a multicast one cleared, and its other bits as they were.
pub derive_bounds :
    (h : ℕ) (m : Mac)
    → IsMac m
    → IsMac (derive h m) × ((derive h m).o0 % 4 ≡ 2) × ((derive h m).o0 / 4 ≡ m.o0 / 4)
unfolding derive
derive_bounds h m (b0, b1, b2, b3, b4, b5) =
    let first = local_unicast_lem m.o0 b0 in
    let last : xor 8 m.o5 (h % 256) < 256 = xor_bound 8 m.o5 (h % 256) in
    ((omega (arith, b0, first), b1, b2, b3, b4, last), omega (arith, first), omega (arith, first))

pub derive_nodes :
    (h : ℕ) (m n : Mac)
    → IsMac m
    → IsMac n
    → derive h m ≡ derive h n
    → (m.o0 / 4 ≡ n.o0 / 4)
      × (m.o1 ≡ n.o1)
      × (m.o2 ≡ n.o2)
      × (m.o3 ≡ n.o3)
      × (m.o4 ≡ n.o4)
      × (m.o5 ≡ n.o5)
unfolding derive
derive_nodes h m n (am, _, _, _, _, bm) (an, _, _, _, _, bn) e =
    let first : local_unicast m.o0 ≡ local_unicast n.o0 = ap (λ (x : Mac). x.o0) e in
    let left = local_unicast_lem m.o0 am in
    let right = local_unicast_lem n.o0 an in
    (
      omega (arith, first, left, right),
      ap (λ (x : Mac). x.o1) e,
      ap (λ (x : Mac). x.o2) e,
      ap (λ (x : Mac). x.o3) e,
      ap (λ (x : Mac). x.o4) e,
      xor_cancel 8 m.o5 n.o5 (h % 256) bm bn (ap (λ (x : Mac). x.o5) e),
    )

-- The MACs derived from one MAC for two ports are the same exactly if the sums of the names of
-- the ports agree in their last byte.
pub derive_ports : (h k : ℕ) (m : Mac) → (derive h m ≡ derive k m) ↔ (h % 256 ≡ k % 256)
unfolding derive
derive_ports h k m = (
  λ e.
      let last : xor 8 m.o5 (h % 256) ≡ xor 8 m.o5 (k % 256) = ap (λ (x : Mac). x.o5) e in
      let turned : xor 8 (h % 256) m.o5 ≡ xor 8 (k % 256) m.o5 =
        rw (xor_comm 8 (h % 256) m.o5, xor_comm 8 (k % 256) m.o5) last in
      xor_cancel 8 (h % 256) (k % 256) m.o5 (omega arith) (omega arith) turned,
  λ e. rw e refl,
)
