-- ===== src/Pci/Scan.antt =====
-- A scan of at most two boards, each with its first controller, stays within the arrays.
use c4l.Common.{
  ℕ, zero, suc, ◌+◌, ◌*◌, ◌^◌, ◌≤◌, ◌<◌, ◌≡◌, ◌⊎◌, inl, inr, refl, sym, subst, arith, some, List,
  [], ◌∷◌, Bool, true, false, ◌==◌, ltb, if◌then◌else◌, length, u32, add32,
}
use c4l.Machine.{Access}
use c4l.Frame.{max_channels}
use c4l.Pci.{
  PciDev, Pci, P, pure, ◌>>◌, Next, found, stop, no_device, readb, write_mem, control_at,
  set_control, set_channel, answers, share_control, reset_cpc_pci, available_by,
  controller_available, read_signature, add_channel, second_channel, scan_channels, scan_board,
  enodev, go_on, scan_loop, pcimod_scan,
}
use c4l.Pci.Runs.{
  Any, Sized, Runs, pure-Runs, >>=-Runs, if-Runs, Any-read, write_mem-Runs, control_at-Runs,
  set_control-Runs, set_channel-Runs, Is, answers_right, and_also-Runs, both_right, Any-answer,
}

module _ (env : List Access → ℕ → ℕ) (ioremap : ℕ → ℕ) where
  available_by-Runs : (ptr offset : ℕ) (basic : Bool) → Runs env (available_by ptr offset basic) Any
  available_by-Runs ptr offset true =
      and_also-Runs env _ _ (Any-answer env 0x0c 0xff (add32 ptr (2 * offset)))
        (Any-answer env 0xe0 0xff (add32 ptr (3 * offset)))
  available_by-Runs ptr offset false =
      and_also-Runs env _ _ (Any-answer env 0x00 0xff (add32 ptr (1 * offset))) (
        and_also-Runs env _ _ (Any-answer env 0x34 0x37 (add32 ptr (2 * offset)))
          (Any-answer env 0x00 0xfb (add32 ptr (3 * offset))))

  available-Runs : (address offset : ℕ) → Runs env (controller_available ioremap address offset) Any
  unfolding controller_available
  available-Runs address offset =
      >>=-Runs env (answers 0x21 0xff (ioremap address)) (available_by (ioremap address) offset) Any
        Any (Any-answer env 0x21 0xff (ioremap address))
        (λ basic _. available_by-Runs (ioremap address) offset basic)

  -- A controller that answers as after a hardware reset.
  abbrev pub AfterReset : ℕ → Type 0
  AfterReset address =
      let ptr = ioremap address in
      Is env ptr 0xff 0x21
      × Is env (add32 ptr (2 * 4)) 0xff 0x0c
      × Is env (add32 ptr (3 * 4)) 0xff 0xe0

  available-AfterReset :
      (address : ℕ)
      → AfterReset address
      → Runs env (controller_available ioremap address 4) (λ b. b ≡ true)
  unfolding controller_available
  available-AfterReset address (mode, status, irq) =
      let ptr = ioremap address in
      >>=-Runs env (answers 0x21 0xff ptr) (available_by ptr 4) (λ b. b ≡ true) (λ b. b ≡ true)
        (answers_right env 0x21 0xff ptr mode)
        (λ basic is_basic.
          subst (λ (b : Bool). Runs env (available_by ptr 4 b) (λ b. b ≡ true)) (sym is_basic)
            (both_right env (answers 0x0c 0xff (add32 ptr (2 * 4)))
              (answers 0xe0 0xff (add32 ptr (3 * 4)))
              (answers_right env 0x0c 0xff (add32 ptr (2 * 4)) status)
              (answers_right env 0xe0 0xff (add32 ptr (3 * 4)) irq)))

  -- The number of devices is within bounds, if the loop goes on.
  abbrev Within : ℕ → ℕ → Next → Type 0
  Within low high (found n) = (low ≤ n) × (n ≤ high)
  Within low high stop = Unit {0}
  Within low high no_device = Unit {0}

  in_channels : (n : ℕ) → n < 4 → ltb max_channels n ≡ false
  in_channels n h = ground arith

  add_channel-Runs :
      (share : P (Unit {0})) (pdev : PciDev) (address candev low high : ℕ)
      → candev < 4
      → low ≤ candev + 1
      → candev + 1 ≤ high
      → Runs env share Any
      → Runs env (add_channel ioremap share pdev address candev) (Within low high)
  unfolding add_channel
  add_channel-Runs share pdev address candev low high small above below shares =
      rw (in_channels candev small) (
        >>=-Runs env (share >> set_channel candev (ioremap address) pdev.irq)
          (λ _. pure (found (candev + 1))) Any (Within low high)
          (>>=-Runs env share (λ _. set_channel candev (ioremap address) pdev.irq) Any Any shares
            (λ _ _. set_channel-Runs env candev (ioremap address) pdev.irq small))
          (λ _ _. pure-Runs env (found (candev + 1)) (Within low high) (above, below)))

  share-Runs : (n : ℕ) → 1 ≤ n → n < 4 → Runs env (share_control n) Any
  unfolding share_control
  share-Runs zero h small = absurd (omega arith)
  share-Runs (suc n) h small = record {
    at = λ st sized.
        (>>=-Runs env (control_at n) (set_control (suc n)) Any Any
            (control_at-Runs env n (omega arith)) (λ v _. set_control-Runs env (suc n) v small)).at
          st sized;
  }

  second_channel-Runs :
      (pdev : PciDev) (next : Next) (n : ℕ)
      → n < 4
      → Within 1 n next
      → Runs env (second_channel ioremap pdev next) (Within 0 (n + 1))
  unfolding second_channel
  second_channel-Runs pdev stop n small h = pure-Runs env stop _ tt
  second_channel-Runs pdev no_device n small h = pure-Runs env no_device _ tt
  second_channel-Runs pdev (found k) n small (low, high) =
      >>=-Runs env (controller_available ioremap (add32 pdev.bar1 0x600) 4)
        (λ two.
          if two
          then add_channel ioremap (share_control k) pdev (add32 pdev.bar1 0x600) k
          else pure (found k))
        Any (Within 0 (n + 1)) (available-Runs (add32 pdev.bar1 0x600) 4)
        (λ two _.
          if-Runs env two _ _ (Within 0 (n + 1))
            (add_channel-Runs (share_control k) pdev (add32 pdev.bar1 0x600) k 0 (n + 1)
              (omega arith) (omega arith) (omega arith) (share-Runs k low (omega arith)))
            (pure-Runs env (found k) (Within 0 (n + 1)) (omega arith, omega arith)))

  then-Runs :
      {B : Type 0} (m : P (Unit {0})) (k : P B) (R : B → Type 0)
      → Runs env m Any
      → Runs env k R
      → Runs env (m >> k) R
  then-Runs m k R p q = >>=-Runs env m (λ _. k) Any R p (λ _ _. q)

  -- The first channel of a board, when its controller is there.
  first_added :
      (pdev : PciDev) (candev : ℕ) (one : Bool)
      → candev ≤ 2
      → one ≡ true
      → Runs env
          (if one
            then add_channel ioremap (pure tt) pdev (add32 pdev.bar1 0x400) candev
            else pure (found candev))
          (Within 1 (candev + 1))
  first_added pdev candev one few there = rw there (
      add_channel-Runs (pure tt) pdev (add32 pdev.bar1 0x400) candev 1 (candev + 1) (omega arith)
        (omega arith) (omega arith) (pure-Runs env tt Any tt))

  scan_channels-Runs :
      (pdev : PciDev) (candev : ℕ)
      → candev ≤ 2
      → AfterReset (add32 pdev.bar1 0x400)
      → Runs env (scan_channels ioremap pdev candev) (Within 0 (candev + 2))
  unfolding scan_channels reset_cpc_pci
  scan_channels-Runs pdev candev few there =
      let high : Next → Type 0 = Within 0 (candev + 2) in
      then-Runs (write_mem 0x01 (ioremap (add32 pdev.bar1 0x400))) _ high (write_mem-Runs env _ _) (
        then-Runs (write_mem 0x01 (ioremap (add32 pdev.bar1 0x600))) _ high (write_mem-Runs env _ _)
          (>>=-Runs env (control_at candev) _ Any high (control_at-Runs env candev (omega arith))
            (λ ctl _.
              then-Runs (write_mem 0x0002_0000 (ctl + 0x0)) _ high (write_mem-Runs env _ _) (
                >>=-Runs env (controller_available ioremap (add32 pdev.bar1 0x400) 4) _
                  (λ b. b ≡ true) high (available-AfterReset (add32 pdev.bar1 0x400) there)
                  (λ one is_there.
                    >>=-Runs env _ (second_channel ioremap pdev) (Within 1 (candev + 1)) high
                      (first_added pdev candev one few is_there)
                      (λ next within.
                        up_to
                          (second_channel-Runs pdev next (candev + 1) (omega arith) within)))))))
    where
      two_more : (n : ℕ) → n + 1 + 1 ≡ n + 2
      two_more n = omega arith

      up_to :
          {m : P Next} → Runs env m (Within 0 (candev + 1 + 1)) → Runs env m (Within 0 (candev + 2))
      up_to {m} p = subst (λ (n : ℕ). Runs env m (Within 0 n)) (two_more candev) p

  read_signature-Runs : (bar1 : ℕ) → Runs env (read_signature ioremap bar1) Any
  unfolding read_signature
  read_signature-Runs bar1 =
      let ptr = ioremap bar1 in
      >>=-Runs env (readb ptr) _ Any Any (Any-read env ptr) (λ a _.
        >>=-Runs env (readb (add32 ptr 4)) _ Any Any (Any-read env (add32 ptr 4)) (λ b _.
          >>=-Runs env (readb (add32 ptr 8)) _ Any Any (Any-read env (add32 ptr 8)) (λ c _.
            >>=-Runs env (readb (add32 ptr 12)) _ Any Any (Any-read env (add32 ptr 12))
              (λ d _. pure-Runs env (u32 (a * 2 ^ 24 + b * 2 ^ 16 + c * 2 ^ 8 + d)) Any tt))))

  scan_board-Runs :
      (pdev : PciDev) (candev : ℕ)
      → candev ≤ 2
      → AfterReset (add32 pdev.bar1 0x400)
      → Runs env (scan_board ioremap pdev candev) (Within 0 (candev + 2))
  unfolding scan_board
  scan_board-Runs pdev candev few there =
      let high : Next → Type 0 = Within 0 (candev + 2) in
      let ptr = ioremap pdev.bar0 in
      if-Runs env pdev.enables _ _ high
        (then-Runs (write_mem 0x0400_0000 (add32 ptr 0x1c)) _ high (write_mem-Runs env _ _) (
          then-Runs (set_control candev ptr) _ high (set_control-Runs env candev ptr (omega arith))
            (>>=-Runs env (read_signature ioremap pdev.bar1) _ Any high
              (read_signature-Runs pdev.bar1)
              (λ sig _.
                if-Runs env (sig == 0x55aa_01cb) _ _ high (scan_channels-Runs pdev candev few there)
                  (pure-Runs env no_device high tt)))))
        (pure-Runs env (found candev) high (omega arith, omega arith))

  -- The first controller of each board of a list answers as after a hardware reset.
  abbrev pub AllAfterReset : List PciDev → Type 0
  AllAfterReset [] = Unit {0}
  AllAfterReset (pdev ∷ devs) = AfterReset (add32 pdev.bar1 0x400) × AllAfterReset devs

  abbrev Code : ℕ → Type 0
  Code r = (r ≡ 0) ⊎ (r ≡ enodev)

  scan_loop-Runs :
      (devs : List PciDev) (candev : ℕ)
      → candev + 2 * length devs ≤ 4
      → AllAfterReset devs
      → Runs env (scan_loop ioremap devs candev) Code
  unfolding scan_loop
  scan_loop-Runs [] candev few there = pure-Runs env 0 Code (inl refl)
  scan_loop-Runs (pdev ∷ devs) candev few there =
      >>=-Runs env (scan_board ioremap pdev candev) (go_on (scan_loop ioremap devs))
        (Within 0 (candev + 2)) Code (scan_board-Runs pdev candev (omega arith) there.0)
        (next_board (λ n room. scan_loop-Runs devs n room there.1))
    where
      next_board :
          ((n : ℕ) → n + 2 * length devs ≤ 4 → Runs env (scan_loop ioremap devs n) Code)
          → (next : Next) → Within 0 (candev + 2) next
          → Runs env (go_on (scan_loop ioremap devs) next) Code
      next_board others (found n) (low, high) = others n (omega arith)
      next_board others stop h = pure-Runs env 0 Code (inl refl)
      next_board others no_device h = pure-Runs env enodev Code (inr refl)

  -- On a bus with at most two boards, each with a first controller that answers as after a hardware reset, the scan stays
  -- within the arrays of four channels, and returns 0 or -ENODEV.
  pub pcimod_scan_bounds :
      (devs : List PciDev) (st : Pci)
      → length devs ≤ 2
      → AllAfterReset devs
      → Sized env st
      → (r : ℕ) × (st' : Pci) × (pcimod_scan ioremap true devs st ≡ some (r, st'))
        × Sized env st'
        × ((r ≡ 0) ⊎ (r ≡ enodev))
  unfolding pcimod_scan
  pcimod_scan_bounds devs st two there sized =
      (scan_loop-Runs devs 0 (omega arith) there).at st sized
