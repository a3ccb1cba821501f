-- ===== src/Thermometer/Sensor.antt =====
-- The driver of the sensor, Microprocessors_And_Peripherals/03. Final/dht.c. `pin` is the level of the
-- pin at each reading that decides something, by its number; the waits between them are left out.
use university_collection.Prelude.{ℕ, zero, suc, ◌+◌, ◌-◌, ◌*◌, ◌/◌, ◌%◌, ◌^◌, ◌<◌, ◌≡◌}
use university_collection.Prelude.{
  Bool, true, false, not, ◌==◌, if◌then◌else◌, Option, none, some, arith,
}

-- `byte |= (1 << k)` and `byte &= ~(1 << k)`, for the weight `1 << k`.
unfoldable pub with_bit : (weight : ℕ) → Bool → ℕ → ℕ
with_bit weight true byte = if byte / weight % 2 == 1 then byte else byte + weight
with_bit weight false byte = if byte / weight % 2 == 1 then byte - weight else byte

-- `DHT11_Start`: whether the sensor has answered. Reading 0 decides about a wait only.
unfoldable pub dht11_start : (ℕ → Bool) → Bool
dht11_start pin = if not (pin 1) then pin 2 else false

-- The loop of `DHT11_Read_Byte` for the last `n` bits, from reading `k` on.
unfoldable pub read_bits : (n k : ℕ) → (ℕ → Bool) → ℕ → ℕ
read_bits zero k pin byte = byte
read_bits (suc n) k pin byte = read_bits n (k + 1) pin (with_bit (2 ^ n) (pin k) byte)

-- `DHT11_Read_Byte`, where `byte` is what the variable held before.
unfoldable pub dht11_read_byte : (k : ℕ) → (ℕ → Bool) → ℕ → ℕ
dht11_read_byte k pin byte = read_bits 8 k pin byte

-- `ReadDHT11`: temperature and humidity in tenths, or 0. `byte` is what the stack held for each byte.
unfoldable pub read_dht11 : (ℕ → Bool) → (byte : ℕ → ℕ) → Option (ℕ × ℕ)
read_dht11 pin byte =
    let b0 = dht11_read_byte 3 pin (byte 0) in
    let b1 = dht11_read_byte 11 pin (byte 1) in
    let b2 = dht11_read_byte 19 pin (byte 2) in
    let b3 = dht11_read_byte 27 pin (byte 3) in
    let b4 = dht11_read_byte 35 pin (byte 4) in
    if not (dht11_start pin)
    then none
    else if not (b4 == (b0 + b1 + b2 + b3) % 256)
    then none
    else some (b2 * 10 + b3, b0 * 10 + b1)

-- The bit of a byte with a weight.
abbrev pub bit : ℕ → ℕ → Bool
bit byte weight = byte / weight % 2 == 1

-- The last `n` bits of a byte on the pin, the highest first, from reading `k` on.
abbrev Sends : (n k : ℕ) → (ℕ → Bool) → (byte : ℕ) → Type 0
Sends zero k pin byte = Unit
Sends (suc n) k pin byte = (pin k ≡ bit byte (2 ^ n)) × Sends n (k + 1) pin byte

abbrev step : ℕ → ℕ → ℕ → ℕ
step weight byte old = with_bit weight (bit byte weight) old

step128 :
    (byte old : ℕ)
    → byte < 256
    → old < 256
    → (step 128 byte old / 128 ≡ byte / 128) × (step 128 byte old < 256)
unfolding with_bit
step128 byte old h o = (ground (arith, h, o), ground (arith, h, o))

step64 : (byte old : ℕ) → old / 128 ≡ byte / 128 → step 64 byte old / 64 ≡ byte / 64
unfolding with_bit
step64 byte old h = ground (arith, h)

step32 : (byte old : ℕ) → old / 64 ≡ byte / 64 → step 32 byte old / 32 ≡ byte / 32
unfolding with_bit
step32 byte old h = ground (arith, h)

step16 : (byte old : ℕ) → old / 32 ≡ byte / 32 → step 16 byte old / 16 ≡ byte / 16
unfolding with_bit
step16 byte old h = ground (arith, h)

step8 : (byte old : ℕ) → old / 16 ≡ byte / 16 → step 8 byte old / 8 ≡ byte / 8
unfolding with_bit
step8 byte old h = ground (arith, h)

step4 : (byte old : ℕ) → old / 8 ≡ byte / 8 → step 4 byte old / 4 ≡ byte / 4
unfolding with_bit
step4 byte old h = ground (arith, h)

step2 : (byte old : ℕ) → old / 4 ≡ byte / 4 → step 2 byte old / 2 ≡ byte / 2
unfolding with_bit
step2 byte old h = ground (arith, h)

step1 : (byte old : ℕ) → old / 2 ≡ byte / 2 → step 1 byte old ≡ byte
unfolding with_bit
step1 byte old h = ground (arith, h)

-- A byte that the sensor sends is read, whatever the variable held before.
read_byte-Sends :
    (k : ℕ) (pin : ℕ → Bool) (byte old : ℕ)
    → byte < 256
    → old < 256
    → Sends 8 k pin byte
    → dht11_read_byte k pin old ≡ byte
unfolding dht11_read_byte read_bits
read_byte-Sends k pin byte old h o s =
    let (s7, t6) = s in
    let (s6, t5) = t6 in
    let (s5, t4) = t5 in
    let (s4, t3) = t4 in
    let (s3, t2) = t3 in
    let (s2, t1) = t2 in
    let (s1, t0) = t1 in
    rw (s7, s6, s5, s4, s3, s2, s1, t0.0)
      (step1 byte _ (
        step2 byte _ (
          step4 byte _ (
            step8 byte _
              (step16 byte _ (step32 byte _ (step64 byte _ (step128 byte old h o).0)))))))

-- What is stored of a measurement that was sent as five bytes.
abbrev pub measured : (ℕ → ℕ) → Option (ℕ × ℕ)
measured byte =
    if byte 4 == (byte 0 + byte 1 + byte 2 + byte 3) % 256
    then some (byte 2 * 10 + byte 3, byte 0 * 10 + byte 1)
    else none

-- If the sensor answers and sends five bytes, `ReadDHT11` gives the temperature and the humidity of these
-- bytes when the last one is the sum of the others in eight bits, and fails when it is not, whatever the
-- stack held before.
pub read_dht11-Sends :
    (pin : ℕ → Bool) (old byte : ℕ → ℕ)
    → dht11_start pin ≡ true
    → ((i : ℕ) → old i < 256)
    → ((i : ℕ) → byte i < 256)
    → Sends 8 3 pin (byte 0)
    → Sends 8 11 pin (byte 1)
    → Sends 8 19 pin (byte 2)
    → Sends 8 27 pin (byte 3)
    → Sends 8 35 pin (byte 4)
    → read_dht11 pin old ≡ measured byte
unfolding read_dht11
read_dht11-Sends pin old byte ok o h s0 s1 s2 s3 s4 =
    rw
      (
        ok,
        read_byte-Sends 3 pin (byte 0) (old 0) (h 0) (o 0) s0,
        read_byte-Sends 11 pin (byte 1) (old 1) (h 1) (o 1) s1,
        read_byte-Sends 19 pin (byte 2) (old 2) (h 2) (o 2) s2,
        read_byte-Sends 27 pin (byte 3) (old 3) (h 3) (o 3) s3,
        read_byte-Sends 35 pin (byte 4) (old 4) (h 4) (o 4) s4,
      )
      (ground arith)
