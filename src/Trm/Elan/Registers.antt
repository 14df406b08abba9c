-- ===== src/Trm/Elan/Registers.antt =====
-- The configuration registers of the Elan after the mapping: what an index and a data port make of the port accesses.
use c4l.Common.{
  ℕ, ◌/◌, ◌^◌, ◌≡◌, refl, ◌∙◌, ap, ap₂, arith, some, List, [], ◌∷◌, Bool, true, false, ◌==◌,
  if◌then◌else◌, bit_and, bit_or, u8,
}
use c4l.Machine.{Access, input, output, St, M, pure, ◌>>=◌, ◌>>◌, >>=-some}
use c4l.Trm.Elan.{
  write_port, read_port, change, map_irq, map_base, map_board, dnp_map_can, adnptrm, index_reg,
  data_reg,
}

-- Registers by their index.
abbrev pub Registers : Type 0
Registers = ℕ → ℕ

abbrev pub update : Registers → ℕ → ℕ → Registers
update r i v j = if j == i then v else r j

-- The index register and the configuration registers after accesses of which the newest is the first.
unfoldable pub elan : Registers → List Access → ℕ × Registers
elan first [] = (0, first)
elan first (input p v ∷ log) = elan first log
elan first (output p v ∷ log) =
    let before = elan first log in
    if p == index_reg
    then (v, before.1)
    else if p == data_reg
    then (before.0, update before.1 before.0 v)
    else before

-- The ports are those of an Elan that had the registers `first` before all accesses.
abbrev pub IsElan : Registers → St → Type 0
IsElan first st = (log : List Access) → st.env log data_reg ≡ (elan first log).1 (elan first log).0

abbrev pub now : Registers → St → Registers
now first st = (elan first st.log).1

u8-u8 : (n : ℕ) → u8 (u8 n) ≡ u8 n
u8-u8 n = omega arith

-- The registers after the base was mapped.
abbrev pub with_base : ℕ → Registers → Registers
with_base base r =
    update
      (update
        (update
          (update
            (update (update r 0xa0 (u8 (bit_or (u8 (r 0xa0)) 0x0c))) 0xb6 (u8 (bit_and base 0xff)))
            0xb7 (u8 (bit_or (base / 2 ^ 8) 0x38)))
          0xb8 (u8 (bit_or (bit_and (u8 (r 0xb8)) 0x0f) 0x30)))
        0xb2 (u8 (bit_or (bit_and (u8 (r 0xb2)) 0x0f) 0x10)))
      0xa6 0

-- The registers after the interrupt was mapped.
abbrev pub with_irq : ℕ → Registers → Registers
with_irq irq r =
    if bit_and (u8 (r 0xd7)) 0x0f == 0
    then update r 0xd7 (u8 (bit_or (bit_and (u8 (r 0xd7)) 0xf0) irq))
    else r

module _ (first : Registers) where
  -- A part of the mapping that ends with the result `a`, and with the registers `after`.
  abbrev Reaches : {A : Type 0} → M A → St → A → Registers → Type 0
  Reaches m st a after =
      (st' : St) × (m st ≡ some (a, st')) × (st'.env ≡ st.env) × (now first st' ≡ after)

  -- The same from every state with the registers `r`.
  record Maps {A : Type 0} (m : M A) (r : Registers) (a : A) (r' : Registers) : Type 0 where
    at : (st : St) → IsElan first st → now first st ≡ r → Reaches m st a r'

  >>=-Maps :
      {A B : Type 0} (m : M A) (f : A → M B) {a : A} {b : B} {r r1 r2 : Registers}
      → Maps m r a r1
      → Maps (f a) r1 b r2
      → Maps (m >>= f) r b r2
  >>=-Maps {A} {B} m f {a} {b} {r} {r1} {r2} p q = record { at = go }
    where
      go : (st : St) → IsElan first st → now first st ≡ r → Reaches (m >>= f) st b r2
      go st h e =
          let (st1, run1, e1, n1) = p.at st h e in
          let (st2, run2, e2, n2) =
            q.at st1 (λ log. ap (λ (env : List Access → ℕ → ℕ). env log data_reg) e1 ∙ h log) n1 in
          (st2, >>=-some m f run1 ∙ run2, e2 ∙ e1, n2)

  pure-Maps : {A : Type 0} (a : A) (r : Registers) → Maps (pure a) r a r
  pure-Maps a r = record { at = λ st h e. (st, refl, refl, e) }

  write_port-Maps : (i v : ℕ) (r : Registers) → Maps (write_port i v) r tt (update r (u8 i) (u8 v))
  unfolding write_port elan
  write_port-Maps i v r = record {
    at = λ st h e. (
      record st { log = output data_reg (u8 (u8 v)) ∷ output index_reg (u8 (u8 i)) ∷ st.log },
      refl,
      refl,
      ap (λ q. update q (u8 (u8 i)) (u8 (u8 v))) e ∙ ap₂ (update r) (u8-u8 i) (u8-u8 v),
    );
  }

  abbrev selected : ℕ → St → St
  selected i st = record st { log = output index_reg (u8 (u8 i)) ∷ st.log }

  abbrev answered : ℕ → ℕ → St → St
  answered i n st = record st { log = input data_reg (u8 n) ∷ (selected i st).log }

  -- A read answers the register, and changes none.
  read_port-Maps : (i : ℕ) (r : Registers) → Maps (read_port i) r (u8 (r (u8 i))) r
  unfolding read_port elan
  read_port-Maps i r = record {
    at = λ st h e. (
      answered i (r (u8 i)) st,
      ap (λ (n : ℕ). some (u8 n, answered i n st))
          (h (selected i st).log ∙ ap₂ (λ (q : Registers) (j : ℕ). q j) e (u8-u8 i)),
      refl,
      e,
    );
  }

  then_write :
      (i v : ℕ) (k : M (Unit {0})) {r r' : Registers}
      → Maps k (update r (u8 i) (u8 v)) tt r'
      → Maps (write_port i v >> k) r tt r'
  then_write i v k {r} p = >>=-Maps (write_port i v) (λ _. k) (write_port-Maps i v r) p

  -- A register is changed.
  abbrev changed : ℕ → (ℕ → ℕ) → Registers → Registers
  changed i f r = update r (u8 i) (u8 (f (u8 (r (u8 i)))))

  change-Maps : (i : ℕ) (f : ℕ → ℕ) (r : Registers) → Maps (change i f) r tt (changed i f r)
  unfolding change
  change-Maps i f r =
      >>=-Maps (read_port i) (λ old. write_port i (f old)) (read_port-Maps i r)
        (write_port-Maps i (f (u8 (r (u8 i)))) r)

  then_change :
      (i : ℕ) (f : ℕ → ℕ) (k : M (Unit {0})) {r r' : Registers}
      → Maps k (changed i f r) tt r'
      → Maps (change i f >> k) r tt r'
  then_change i f k {r} p = >>=-Maps (change i f) (λ _. k) (change-Maps i f r) p

  map_base-Maps :
      (base : ℕ) (r : Registers) → Maps (map_base base) r tt (with_base base (update r 0xa6 0xff))
  unfolding map_base
  map_base-Maps base r = then_write 0xa6 0xff _ (
      then_change 0xa0 (λ pins. bit_or pins 0x0c) _
        (then_write 0xb6 (bit_and base 0xff) _ (
          then_write 0xb7 (bit_or (base / 2 ^ 8) 0x38) _ (
            then_change 0xb8 (λ quals. bit_or (bit_and quals 0x0f) 0x30) _
              (then_change 0xb2 (λ select. bit_or (bit_and select 0x0f) 0x10) _
                (write_port-Maps 0xa6 0x00 _))))))

  map_irq-Maps : (irq : ℕ) (r : Registers) → Maps (map_irq irq) r tt (with_irq irq r)
  unfolding map_irq
  map_irq-Maps irq r =
      >>=-Maps (read_port 0xd7)
        (λ old.
          if bit_and old 0x0f == 0
          then change 0xd7 (λ old. bit_or (bit_and old 0xf0) irq)
          else pure tt)
        (read_port-Maps 0xd7 r) (mapped (bit_and (u8 (r 0xd7)) 0x0f == 0))
    where
      mapped :
          (b : Bool)
          → Maps
              (if b then change 0xd7 (λ old. bit_or (bit_and old 0xf0) irq) else pure tt)
              r
              tt
              (if b then update r 0xd7 (u8 (bit_or (bit_and (u8 (r 0xd7)) 0xf0) irq)) else r)
      mapped true = change-Maps 0xd7 (λ old. bit_or (bit_and old 0xf0) irq) r
      mapped false = pure-Maps tt r

  -- With the ports of an Elan, the mapping gives it an interrupt if it has none, decodes the chip select GP_CSB at the base,
  -- and leads it to a pin; all other registers stay, and the pins are enabled at the end.
  pub dnp_map_can_lem :
      (base irq : ℕ) (st : St)
      → IsElan first st
      → (st' : St) × (dnp_map_can base irq adnptrm st ≡ some (tt, st'))
        × (st'.env ≡ st.env)
        × ((i : ℕ) → now first st' i ≡ with_base base (with_irq irq (now first st)) i)
  unfolding dnp_map_can map_board
  dnp_map_can_lem base irq st h =
      let (st', run, env, regs) =
        (>>=-Maps (map_irq irq) (λ _. map_base base) (map_irq-Maps irq (now first st))
            (map_base-Maps base (with_irq irq (now first st)))).at
          st h refl in
      (st', run, env, λ i. ap (λ (r : Registers). r i) regs ∙ enabled i)
    where
      enabled :
          (i : ℕ)
          → with_base base (update (with_irq irq (now first st)) 0xa6 0xff) i
            ≡ with_base base (with_irq irq (now first st)) i
      enabled i = ground arith
