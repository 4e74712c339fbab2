-- ===== src/Ata/Transfers.antt =====
-- pkg/kernel/src/drivers/ata/bus.rs: on a disk that keeps to the protocol, sectors are read and
-- written.
use sysu_ysosv.Prelude.{
  ℕ, zero, suc, ◌≤◌, ◌<◌, ◌⊎◌, ◌==◌, ◌+◌, ◌/◌, ◌%◌, ◌^◌, ◌≡◌, inl, inr, refl, sym, ap, subst, ◌∙◌,
  Bool, true, false, not, some, List, [], ◌∷◌, ◌++◌, append-nil, append_assoc, arith, length,
  length-append, if◌then◌else◌, returns,
}
use sysu_ysosv.Prelude.Result.{ok}
use sysu_ysosv.Ata.{
  Ports, AtaBus, AtaCommand, read_pio_command, write_pio_command, register, status_register,
  byte_of, drive_byte, code, status, poll, wait_for, has, busy, error, data_request_ready, issue,
  write_command, read_data, write_data, bytes_of, words_of, read_pio, write_pio,
}
use sysu_ysosv.Ata.Protocol.{Sectors, Busy, IsDisk, IsStatusPort, replace, lba28-eq, drive_byte-eq}

cons-of : (xs : List ℕ) (n : ℕ) → length xs ≡ suc n → (y : ℕ) × (ys : List ℕ) × (xs ≡ y ∷ ys)
cons-of [] n e = absurd (omega (arith, e))
cons-of (y ∷ ys) n e = (y, ys, refl)

-- One reading less
abbrev less : ℕ → ℕ
less zero = zero
less (suc n) = n

less-le : (n : ℕ) → less n ≤ n
less-le zero = omega arith
less-le (suc n) = omega arith

-- What the status shows, with `n` more readings that show BUSY
abbrev shown : ℕ → ℕ → ℕ
shown zero st = st
shown (suc n) st = 0x80

module _ (p : Ports) (warn : Bool) (bus : AtaBus) where
  -- A state that reading the status does not leave, and in which the status is `st`.
  record Shows (P : p.State → Type 0) (st : ℕ) : Type 0 where
    shows :
        (port : ℕ) (s : p.State)
        → IsStatusPort bus port
        → P s
        → ((p.read port s).0 ≡ st) × P (p.read port s).1

  module _ (P : p.State → Type 0) (st : ℕ) (h : Shows P st) where
    status-Shows : (s : p.State) → P s → ((status p warn bus s).0 ≡ st) × P (status p warn bus s).1
    unfolding status
    status-Shows s k =
        let (_, k1) = h.shows bus.ctrl_base s (inl refl) k in
        let (_, k2) = h.shows bus.ctrl_base (p.read bus.ctrl_base s).1 (inl refl) k1 in
        let (_, k3) = h.shows bus.ctrl_base _ (inl refl) k2 in
        let (_, k4) = h.shows bus.ctrl_base _ (inl refl) k3 in
        h.shows (register bus status_register) _ (inr refl) k4

    -- A poll for what the status shows is over at once.
    poll-Shows :
        (fuel bit : ℕ) (val : Bool) (s : p.State)
        → P s
        → (if val then has st bit else not (has st bit)) ≡ true
        → poll p warn bus (suc fuel) bit val s ≡ some (status p warn bus s).1
    unfolding poll wait_for
    poll-Shows fuel bit val s k over = rw (wait_for, (status-Shows s k).0, over) refl

  module _ (P : p.State → Type 0) (st : ℕ) (h : Shows P st) where
    -- One reading of the status.
    read-Busy :
        (n port : ℕ) (s : p.State)
        → IsStatusPort bus port
        → Busy p bus n P s
        → ((p.read port s).0 ≡ shown n st) × Busy p bus (less n) P (p.read port s).1
    read-Busy zero port s i k = h.shows port s i k
    read-Busy (suc n) port s i k = k port i

    -- What status answers: BUSY, or what the status shows when the disk is no longer busy.
    status-Busy :
        (n : ℕ) (s : p.State)
        → Busy p bus n P s
        → ((status p warn bus s).0 ≡ st) × P (status p warn bus s).1
          ⊎ (m : ℕ) × (m < n)
            × ((status p warn bus s).0 ≡ 0x80)
            × Busy p bus m P (status p warn bus s).1
    unfolding status
    status-Busy n s k =
        let (_, k1) = read-Busy n bus.ctrl_base s (inl refl) k in
        let (_, k2) = read-Busy (less n) bus.ctrl_base _ (inl refl) k1 in
        let (_, k3) = read-Busy (less (less n)) bus.ctrl_base _ (inl refl) k2 in
        let (_, k4) = read-Busy (less (less (less n))) bus.ctrl_base _ (inl refl) k3 in
        last (less (less (less (less n)))) _
          (omega (
            arith,
            less-le n,
            less-le (less n),
            less-le (less (less n)),
            less-le (less (less (less n))),
          ))
          k4
      where
        last :
            (j : ℕ) (s4 : p.State)
            → j ≤ n
            → Busy p bus j P s4
            → let r = p.read (register bus status_register) s4 in
              (r.0 ≡ st) × P r.1 ⊎ (m : ℕ) × (m < n) × (r.0 ≡ 0x80) × Busy p bus m P r.1
        last zero s4 le k4 = inl (h.shows (register bus status_register) s4 (inr refl) k4)
        last (suc m) s4 le k4 =
            let (e, k5) = k4 (register bus status_register) (inr refl) in
            inr (m, omega (arith, le), e, k5)

    -- A status that is BUSY, and no error, is read again.
    wait_for-busy :
        (fuel v : ℕ) (s : p.State)
        → v ≡ 0x80
        → wait_for p warn bus (suc fuel) busy false (v, s)
          ≡ wait_for p warn bus fuel busy false (status p warn bus s)
    unfolding wait_for has
    wait_for-busy fuel v s e =
        subst
          (λ v.
            wait_for p warn bus (suc fuel) busy false (v, s)
            ≡ wait_for p warn bus fuel busy false (status p warn bus s))
          (sym e) refl

    -- Polling until the disk is not busy ends, if there is a poll for each reading that shows BUSY.
    poll-Busy :
        (fuel n : ℕ) (s : p.State)
        → has st busy ≡ false
        → n ≤ fuel
        → Busy p bus n P s
        → (s' : p.State) × (poll p warn bus (suc fuel) busy false s ≡ some s') × P s'
    unfolding poll wait_for
    poll-Busy zero n s idle le k = elim (status-Busy n s k) [
      | inl (e, k') ↦ ((status p warn bus s).1, rw (wait_for, e, idle) refl, k')
      | inr (m, lt, e, k') ↦ absurd (omega (arith, lt, le))
    ]
    poll-Busy (suc fuel) n s idle le k = elim (status-Busy n s k) [
      | inl (e, k') ↦ ((status p warn bus s).1, rw (wait_for, e, idle) refl, k')
      | inr (m, lt, e, k') ↦
          let (s', over, done) =
            poll-Busy fuel m (status p warn bus s).1 idle (omega (arith, lt, le)) k' in
          (
            s',
            wait_for-busy (suc fuel) (status p warn bus s).0 (status p warn bus s).1 e ∙ over,
            done,
          )
    ]

    -- The value of a status that is answered is st or BUSY.
    status-is :
        (n : ℕ) (s : p.State)
        → Busy p bus n P s
        → (v : ℕ) × (m : ℕ) × ((status p warn bus s).0 ≡ v)
          × ((v ≡ st) ⊎ (v ≡ 0x80))
          × (m ≤ n)
          × Busy p bus m P (status p warn bus s).1
    status-is n s k = elim (status-Busy n s k) [
      | inl (e, k') ↦ (st, 0, e, inl refl, omega arith, k')
      | inr (m, lt, e, k') ↦ (0x80, m, e, inr refl, omega (arith, lt), k')
    ]

  -- A command after which the disk asks for data, be it after some time, is accepted.
  write_command-Busy :
      (P : p.State → Type 0)
      → Shows P 0x58
      → (fuel n drive block : ℕ) (cmd : AtaCommand) (s : p.State) → n ≤ fuel
      → Busy p bus n P (issue p warn bus drive block cmd s)
      → (s' : p.State) × (write_command p warn bus (suc fuel) drive block cmd s ≡ some (ok tt, s'))
        × P s'
  unfolding write_command has
  write_command-Busy P h fuel n drive block cmd s le k0 =
      let step = λ (q : p.State). (status p warn bus q).1 in
      let q0 = issue p warn bus drive block cmd s in
      let (v, m, e0, is, less_left, k1) = status-is P 0x58 h n q0 k0 in
      let there : (v == 0) ≡ false = ground (arith, is) in
      let (q2, over, k2) =
        poll-Busy P 0x58 h fuel m (step q0) refl (omega (arith, less_left, le)) k1 in
      let (e2, k3) = status-Shows P 0x58 h q2 k2 in
      let (e3, k4) = status-Shows P 0x58 h (step q2) k3 in
      let (e4, k5) = status-Shows P 0x58 h (step (step q2)) k4 in
      (
        step (step (step q2)),
        rw
            (
              write_command,
              e0,
              there,
              over,
              e2,
              poll-Shows P 0x58 h fuel busy false (step q2) k3 refl,
              poll-Shows P 0x58 h fuel data_request_ready true (step (step q2)) k4 refl,
            )
            refl,
        k5,
      )

  -- The end of a transfer without an error.
  read_pio-ok :
      (fuel block : ℕ) (words : List ℕ) (s s1 : p.State)
      → write_command p warn bus fuel 0 block read_pio_command s ≡ some (ok tt, s1)
      → (read_data p warn bus 256 s1).0 ≡ words
      → let s2 = (read_data p warn bus 256 s1).1 in
        (status p warn bus s2).0 ≡ 0x50
        → read_pio p warn bus fuel 0 block s ≡ some (ok (bytes_of words), (status p warn bus s2).1)
  unfolding read_pio has
  read_pio-ok fuel block words s s1 accepted read shown =
      rw (read_pio, accepted, shown)
        (ap (λ ws. some (ok (bytes_of ws), (status p warn bus (read_data p warn bus 256 s1).1).1))
          read)

  module _ (a : IsDisk p bus) (disk : Sectors) where
    -- The data register gives the words that the disk sends.
    read_data-Sends :
        (words : List ℕ) (s : p.State)
        → a.Sends words disk s
        → ((read_data p warn bus (length words) s).0 ≡ words)
          × a.Ready disk (read_data p warn bus (length words) s).1
    unfolding read_data
    read_data-Sends [] s k = (refl, a.sent disk s k)
    read_data-Sends (word ∷ words) s k =
        let (e, k1) = a.sends_word word words disk s k in
        let (es, k2) = read_data-Sends words (p.read (register bus 0) s).1 k1 in (cc (e, es), k2)

    -- The disk takes the words that are written to the data register.
    write_data-Takes :
        (lba : ℕ) (words got : List ℕ) (s : p.State)
        → length got + length words ≡ 256
        → a.Takes lba got disk s
        → (n : ℕ) × (n ≤ a.patience)
          × Busy p bus n (a.Ready (replace lba (got ++ words) disk)) (write_data p warn bus words s)
    unfolding write_data
    write_data-Takes lba [] got s size k =
        subst (λ ws. (n : ℕ) × (n ≤ a.patience) × Busy p bus n (a.Ready (replace lba ws disk)) s)
          (sym (append-nil got)) (a.taken lba got disk s (omega (arith, size)) k)
    write_data-Takes lba (word ∷ words) got s size k =
        subst
          (λ ws.
            (n : ℕ) × (n ≤ a.patience)
            × Busy p bus n (a.Ready (replace lba ws disk)) (write_data p warn bus (word ∷ words) s))
          (append_assoc got (word ∷ []) words)
          (write_data-Takes lba words (got ++ word ∷ []) (p.write (register bus 0) word s)
            (omega (arith, size, length-append got (word ∷ [])))
            (a.takes_word lba word got disk s (omega (arith, size)) k))

    Ready-Shows : Shows (a.Ready disk) 0x50
    Ready-Shows = record { shows = λ port s. a.ready_status disk port s }

    Sends-Shows : (word : ℕ) (words : List ℕ) → Shows (a.Sends (word ∷ words) disk) 0x58
    Sends-Shows word words = record { shows = λ port s. a.sends_status word words disk port s }

    Takes-Shows : (lba : ℕ) → Shows (a.Takes lba [] disk) 0x58
    Takes-Shows lba = record {
      shows = λ port s i. a.takes_status lba [] disk port s i (omega arith);
    }

    -- Reading a sector of a disk that is ready ends, and gives the bytes of the sector that the lowest 28 bits of
    -- the block number say. The disk is ready again, and as before.
    pub read_pio-Ready :
        (fuel block : ℕ) (s : p.State)
        → ((i : ℕ) → length (disk i) ≡ 256)
        → a.Ready disk s
        → a.patience ≤ fuel
        → (s' : p.State) × (read_pio p warn bus (suc fuel) 0 block s
            ≡ some (ok (bytes_of (disk (block % 2 ^ 28))), s'))
          × a.Ready disk s'
    unfolding issue code
    read_pio-Ready fuel block s sized ready enough =
        let b3 = byte_of 3 block in
        let high : drive_byte 0 b3 / 16 ≡ 0xE = omega (arith, drive_byte-eq b3) in
        let (n, short, sends) =
          a.read_command (byte_of 0 block) (byte_of 1 block) (byte_of 2 block) (drive_byte 0 b3)
            disk s high ready in
        let (word, words, e) = cons-of (disk (block % 2 ^ 28)) 255 (sized (block % 2 ^ 28)) in
        let sends' =
          subst (λ ws. Busy p bus n (a.Sends ws disk) (issue p warn bus 0 block read_pio_command s))
            (ap disk (lba28-eq block) ∙ e) sends in
        let (s1, accepted, k1) =
          write_command-Busy (a.Sends (word ∷ words) disk) (Sends-Shows word words) fuel n 0 block
            read_pio_command s (omega (arith, short, enough)) sends' in
        let size : length (word ∷ words) ≡ 256 = ap length (sym e) ∙ sized (block % 2 ^ 28) in
        let (read, k2) =
          subst
            (λ n.
              ((read_data p warn bus n s1).0 ≡ word ∷ words)
              × a.Ready disk (read_data p warn bus n s1).1)
            size (read_data-Sends (word ∷ words) s1 k1) in
        let (shown, k3) =
          status-Shows (a.Ready disk) 0x50 Ready-Shows (read_data p warn bus 256 s1).1 k2 in
        (
          (status p warn bus (read_data p warn bus 256 s1).1).1,
          read_pio-ok (suc fuel) block (disk (block % 2 ^ 28)) s s1 accepted (read ∙ sym e) shown,
          k3,
        )

    -- Writing a sector of a disk that is ready ends, and replaces the sector that the lowest 28 bits
    -- of the block number say. The disk may then still be busy.
    pub write_pio-Ready :
        (fuel block : ℕ) (buf words : List ℕ) (s : p.State)
        → words_of buf ≡ returns words
        → length words ≡ 256
        → a.Ready disk s
        → a.patience ≤ fuel
        → (s' : p.State) × (n : ℕ) × (write_pio p warn bus (suc fuel) 0 block buf s
            ≡ some (returns (ok tt, s')))
          × (n ≤ a.patience)
          × Busy p bus n (a.Ready (replace (block % 2 ^ 28) words disk)) s'
    unfolding write_pio issue code has
    write_pio-Ready fuel block buf words s halves size ready enough =
        let b3 = byte_of 3 block in
        let high : drive_byte 0 b3 / 16 ≡ 0xE = omega (arith, drive_byte-eq b3) in
        let (n, short, takes) =
          a.write_command (byte_of 0 block) (byte_of 1 block) (byte_of 2 block) (drive_byte 0 b3)
            disk s high ready in
        let takes' =
          subst
            (λ lba.
              Busy p bus n (a.Takes lba [] disk) (issue p warn bus 0 block write_pio_command s))
            (lba28-eq block) takes in
        let (s1, accepted, k1) =
          write_command-Busy (a.Takes (block % 2 ^ 28) [] disk) (Takes-Shows (block % 2 ^ 28)) fuel
            n 0 block write_pio_command s (omega (arith, short, enough)) takes' in
        let disk' = replace (block % 2 ^ 28) words disk in
        let (n2, short2, k2) =
          write_data-Takes (block % 2 ^ 28) words [] s1 (omega (arith, size)) k1 in
        let (v, m, e, is, left, k3) =
          status-is (a.Ready disk') 0x50 (record { shows = λ port s. a.ready_status disk' port s })
            n2 (write_data p warn bus words s1) k2 in
        let fine : has v error ≡ false = elim is [
          | inl idle ↦ rw idle refl
          | inr still ↦ rw still refl
        ] in
        (
          (status p warn bus (write_data p warn bus words s1)).1,
          m,
          rw (write_pio, accepted, halves, e, fine) refl,
          omega (arith, left, short2),
          k3,
        )
