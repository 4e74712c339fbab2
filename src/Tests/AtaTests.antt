-- ===== src/Tests/AtaTests.antt =====
-- A disk that keeps to the protocol of Ata/Protocol, and the theorem on it.
use sysu_ysosv.Prelude.{
  ℕ, zero, suc, ◌<◌, ◌≡◌, inl, inr, refl, false, some, List, [], ◌∷◌, ◌++◌, arith, length,
  length-append, replicate, ◌==◌, if◌then◌else◌, returns, Bool-cases, ◌≤◌, ◌⊎◌, sym, subst,
}
use sysu_ysosv.Prelude.Result.{ok}
use sysu_ysosv.Storage.Mbr.{Bytes}
use sysu_ysosv.Ata.{Ports, AtaBus, AtaDrive, read_sector, write_sector, register}
use sysu_ysosv.Ata.Protocol.{Sectors, IsDisk, IsStatusPort, Busy, command, replace, lba28}
use sysu_ysosv.Ata.Sectors.{read_sector-write_sector, sector_of}

abbrev primary : AtaBus
primary = record { id = 0; irq = 14; io_base = 0x1F0; ctrl_base = 0x3F6 }

data Phase : Type 0 where
  idle : Phase
  sending : List ℕ → Phase
  taking : ℕ → List ℕ → Phase

-- The sectors, the four registers of an address, what the disk is doing, and for how many readings it is busy.
record Emulated : Type 0 where
  disk : Sectors
  b0 : ℕ
  b1 : ℕ
  b2 : ℕ
  high : ℕ
  phase : Phase
  wait : ℕ

st_of : Phase → ℕ
st_of idle = 0x50
st_of (sending words) = 0x58
st_of (taking lba words) = 0x58

after : List ℕ → Phase
after [] = idle
after (word ∷ words) = sending (word ∷ words)

pop : Phase → ℕ × Phase
unfolding after
pop idle = (0, idle)
pop (sending []) = (0, idle)
pop (sending (word ∷ words)) = (word, after words)
pop (taking lba words) = (0, taking lba words)

read_port : ℕ → Emulated → ℕ × Emulated
unfolding st_of pop
read_port port e =
    if port == 0x1F0
    then ((pop e.phase).0, record e { phase = (pop e.phase).1 })
    else elim e.wait [ zero ↦ (st_of e.phase, e) | suc n ↦ (0x80, record e { wait = n }) ]

push : ℕ → Phase → Sectors → Phase × Sectors × ℕ
unfolding replace
push word idle disk = (idle, disk, 0)
push word (sending words) disk = (sending words, disk, 0)
push word (taking lba words) disk =
    let words' = words ++ word ∷ [] in
    if length words' == 256
    then (idle, replace lba words' disk, 2)
    else (taking lba words', disk, 0)

start : ℕ → Emulated → Phase
unfolding after
start cmd e =
    let lba = lba28 e.b0 e.b1 e.b2 e.high in
    if cmd == 0x20 then after (e.disk lba) else if cmd == 0x30 then taking lba [] else e.phase

write_port : ℕ → ℕ → Emulated → Emulated
unfolding push start
write_port port v e =
    if port == 0x1F0
    then record e {
      phase = (push v e.phase e.disk).0;
      disk = (push v e.phase e.disk).1;
      wait = (push v e.phase e.disk).2;
    }
    else if port == 0x1F3
    then record e { b0 = v }
    else if port == 0x1F4
    then record e { b1 = v }
    else if port == 0x1F5
    then record e { b2 = v }
    else if port == 0x1F6
    then record e { high = v }
    else if port == 0x1F7
    then record e { phase = start v e; wait = 2 }
    else e

abbrev ports : Ports
ports = record { State = Emulated; read = read_port; write = write_port }

Ready : Sectors → Emulated → Type 0
Ready disk e = (e.wait ≡ 0) × (e.phase ≡ idle) × (e.disk ≡ disk)

Sends : List ℕ → Sectors → Emulated → Type 0
Sends words disk e = (e.wait ≡ 0) × (e.phase ≡ after words) × (e.disk ≡ disk)

Takes : ℕ → List ℕ → Sectors → Emulated → Type 0
Takes lba words disk e =
    ((length words < 256) × (e.wait ≡ 0) × (e.phase ≡ taking lba words) × (e.disk ≡ disk))
    ⊎ ((length words ≡ 256) × (e.wait ≡ 2) × (e.phase ≡ idle) × (e.disk ≡ replace lba words disk))

free_port :
    (port : ℕ) (e : Emulated)
    → IsStatusPort primary port
    → read_port port (record e { wait = 0 }) ≡ (st_of e.phase, record e { wait = 0 })
unfolding read_port register
free_port port e (inl h) = rw h refl
free_port port e (inr h) = rw h refl

-- Reading the status of a disk that is not busy changes nothing.
status_port :
    (port : ℕ) (e : Emulated)
    → IsStatusPort primary port
    → e.wait ≡ 0
    → read_port port e ≡ (st_of e.phase, e)
status_port port e i w =
    subst (λ n. read_port port (record e { wait = n }) ≡ (st_of e.phase, record e { wait = n }))
      (sym w) (free_port port e i)

busy_port :
    (port n : ℕ) (e : Emulated)
    → IsStatusPort primary port
    → read_port port (record e { wait = suc n }) ≡ (0x80, record e { wait = n })
unfolding read_port register
busy_port port n e (inl h) = rw h refl
busy_port port n e (inr h) = rw h refl

waits :
    (n : ℕ) (P : Emulated → Type 0) (e : Emulated)
    → P (record e { wait = 0 })
    → Busy ports primary n P (record e { wait = n })
waits zero P e k = k
waits (suc n) P e k = λ port i. rw (busy_port port n e i) (refl, waits n P e k)

take_word :
    (lba word : ℕ) (words : List ℕ) (disk : Sectors) (e : Emulated)
    → length words < 256
    → Takes lba words disk e
    → Takes lba (words ++ word ∷ []) disk (write_port (register primary 0) word e)
unfolding Takes write_port push register
take_word lba word words disk e lt (inr k) = absurd (omega (arith, lt, k.0))
take_word lba word words disk e lt (inl (_, free, phase, same)) =
    elim (Bool-cases (length (words ++ word ∷ []) == 256)) [
      | inl full ↦ inr (
        ground (arith, full),
        rw (phase, full) refl,
        rw (phase, full) refl,
        rw (phase, full, same) refl,
      )
      | inr more ↦ inl (
        ground (arith, more, lt, length-append words (word ∷ [])),
        rw (phase, more) refl,
        rw (phase, more) refl,
        rw (phase, more) same,
      )
    ]

full_status :
    (lba : ℕ) (words : List ℕ) (disk : Sectors) (port : ℕ) (e : Emulated)
    → IsStatusPort primary port
    → length words < 256
    → Takes lba words disk e
    → ((read_port port e).0 ≡ 0x58) × Takes lba words disk (read_port port e).1
unfolding Takes st_of
full_status lba words disk port e i lt (inl (_, free, phase, same)) =
    rw (status_port port e i free, phase) (refl, inl (lt, free, refl, same))
full_status lba words disk port e i lt (inr k) = absurd (omega (arith, lt, k.0))

taken :
    (lba : ℕ) (words : List ℕ) (disk : Sectors) (e : Emulated)
    → length words ≡ 256
    → Takes lba words disk e
    → (n : ℕ) × (n ≤ 2) × Busy ports primary n (Ready (replace lba words disk)) e
unfolding Takes Ready
taken lba words disk e full (inl k) = absurd (omega (arith, full, k.0))
taken lba words disk e full (inr (_, w, phase, same)) = (
  2,
  omega arith,
  subst (λ n. Busy ports primary 2 (Ready (replace lba words disk)) (record e { wait = n })) (sym w)
      (waits 2 (Ready (replace lba words disk)) e (refl, phase, same)),
)

ports-IsDisk : IsDisk ports primary
unfolding Ready Sends Takes read_port write_port start pop st_of after register
ports-IsDisk = record {
  patience = 2;
  Ready = Ready;
  Sends = Sends;
  Takes = Takes;
  ready_status = λ disk port e i k. rw (status_port port e i k.0, k.1) (refl, (k.0, refl, k.2));
  sends_status =
      λ word words disk port e i k. rw (status_port port e i k.0, k.1) (refl, (k.0, refl, k.2));
  takes_status = λ lba words disk port e i lt k. full_status lba words disk port e i lt k;
  read_command = λ b0 b1 b2 d disk e h k. (
    2,
    omega arith,
    waits 2 (Sends (disk (lba28 b0 b1 b2 d)) disk) (command ports primary b0 b1 b2 d 0x20 e)
        (refl, rw k.2 refl, k.2),
  );
  sends_word = λ word words disk e k. (rw k.1 refl, (k.0, rw k.1 refl, k.2));
  sent = λ disk e k. k;
  write_command = λ b0 b1 b2 d disk e h k. (
    2,
    omega arith,
    waits 2 (Takes (lba28 b0 b1 b2 d) [] disk) (command ports primary b0 b1 b2 d 0x30 e)
        (inl (omega arith, refl, refl, k.2)),
  );
  takes_word = take_word;
  taken = λ lba words disk e full k. taken lba words disk e full k;
}

-- A disk whose words are all 0, and one that holds a sector of ones.
abbrev blank : Emulated
blank = record {
  disk = λ i. replicate 256 0;
  b0 = 0;
  b1 = 0;
  b2 = 0;
  high = 0;
  phase = idle;
  wait = 0;
}

abbrev marked : Emulated
marked = record blank { disk = replace 5 (sector_of (replicate 512 1)) blank.disk }

blank-Ready : ports-IsDisk.Ready (λ i. replicate 256 0) blank
unfolding ports-IsDisk Ready
blank-Ready = (refl, refl, refl)

marked-Ready :
    ports-IsDisk.Ready (replace 5 (sector_of (replicate 512 1)) (λ i. replicate 256 0)) marked
unfolding ports-IsDisk Ready
marked-Ready = (refl, refl, refl)

ones-Bytes : (n : ℕ) → Bytes (replicate n 1)
ones-Bytes zero = tt
ones-Bytes (suc n) = (omega arith, ones-Bytes n)

abbrev first_drive : AtaDrive
first_drive = record { drive = 0; blocks = 100 }

enough : ports-IsDisk.patience ≤ 2
unfolding ports-IsDisk
enough = omega arith

read_sector-write_sector_example :
    ((s1 : Emulated) × (n : ℕ) × (write_sector ports false primary 3 first_drive 5
          (replicate 512 1)
          blank
        ≡ some (returns (ok tt, s1)))
      × (n ≤ ports-IsDisk.patience)
      × Busy ports primary n
          (ports-IsDisk.Ready (replace 5 (sector_of (replicate 512 1)) (λ i. replicate 256 0)))
          s1)
    × (s3 : Emulated) × (read_sector ports false primary 3 first_drive 5 marked
        ≡ some (ok (replicate 512 1), s3))
read_sector-write_sector_example =
    read_sector-write_sector ports false primary ports-IsDisk (λ i. replicate 256 0) 2 2 5 5 100
      (replicate 512 1) blank marked (λ i. refl) (ones-Bytes 512) refl enough enough blank-Ready
      marked-Ready
