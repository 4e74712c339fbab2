-- ===== src/Storage/Files/Sectors.antt =====
-- pkg/storage/src/fs/fat16/file.rs: the loop of File::read over the sectors of one cluster.
use sysu_ysosv.Prelude.{
  ℕ, zero, suc, ◌+◌, ◌-◌, ◌*◌, ◌^◌, ◌<◌, ◌≤◌, ◌≡◌, refl, sym, ap, ◌∙◌, min, true, false, ◌||◌, some,
  List, ◌++◌, append_assoc, arith, length, length-append, length-drop, get_or, drop, leb, ◌==◌,
  returns, Bool-cases, inl, inr,
}
use sysu_ysosv.Prelude.Result.{ok}
use sysu_ysosv.Storage.Device.{BlockDevice}
use sysu_ysosv.Storage.Fat.{Fat16, sectors_per_cluster, cluster_to_first_sector}
use sysu_ysosv.Storage.Entries.{Externals, DirEntry}
use sysu_ysosv.Storage.Walk.{slice}
use sysu_ysosv.Storage.Paths.{File, file_length}
use sysu_ysosv.Storage.Files.{
  Transfer, bytes_per_sector, next_sector, bytes_to_read, wrapping_sub, read_loop,
}
use sysu_ysosv.Storage.Files.Runs.{run_of, length-run_of, run_of-append, get_or-drop, take-run_of}

-- The first cluster of a file can be read, and `byte i` is its byte at offset `i`.
pub record HoldsCluster (d : BlockDevice) (as_ref : d.Block → List ℕ) (fat : Fat16) (s : d.State)
    (cluster : ℕ) (byte : ℕ → ℕ) : Type 0 where
  pub block : ℕ → d.Block
  pub reads :
      (k : ℕ)
      → k < sectors_per_cluster fat.bpb
      → d.read_block (cluster_to_first_sector fat cluster + k) s ≡ ok (block k)
  pub sized : (k : ℕ) → k < sectors_per_cluster fat.bpb → length (as_ref (block k)) ≡ 512
  pub holds :
      (k b : ℕ)
      → k < sectors_per_cluster fat.bpb
      → b < 512
      → get_or (as_ref (block k)) b 0 ≡ byte (k * 512 + b)

-- A file of which `o` bytes are read, and what `read` answers when it filled in `bytes`.
abbrev pub at_offset : {x : Externals} → DirEntry x → ℕ → ℕ → File x
at_offset entry cluster o = record { offset = o; current_cluster = cluster; entry = entry }

abbrev pub transfer : {x : Externals} → DirEntry x → ℕ → List ℕ → ℕ → Transfer x
transfer entry cluster bytes o = record {
  result = ok (length bytes);
  bytes = bytes;
  file = at_offset entry cluster o;
}

module _ (x : Externals) (d : BlockDevice) (as_ref : d.Block → List ℕ) (fat : Fat16) (s : d.State)
    (byte : ℕ → ℕ) (bps : bytes_per_sector fat.bpb ≡ 512) (entry : DirEntry x) (cluster : ℕ)
    (h : HoldsCluster d as_ref fat s cluster byte) where
  slice-run_of :
      (k b n : ℕ)
      → k < sectors_per_cluster fat.bpb
      → b + n ≤ 512
      → slice b n (as_ref (h.block k)) ≡ returns (run_of byte n (k * 512 + b))
  unfolding slice
  slice-run_of k b n lt fits =
      let size = h.sized k lt in
      let inside : leb (b + n) (length (as_ref (h.block k))) ≡ true = ground (arith, size, fits) in
      let known : (j : ℕ)
          → j < n
          → get_or (drop b (as_ref (h.block k))) j 0 ≡ byte (k * 512 + b + j) =
        λ j small.
          let there : k * 512 + (b + j) ≡ k * 512 + b + j = omega arith in
          get_or-drop b j (as_ref (h.block k))
          ∙ h.holds k (b + j) lt (omega (arith, small, fits))
          ∙ ap byte there in
      rw inside (
        ap returns (
          take-run_of byte n (k * 512 + b) (drop b (as_ref (h.block k)))
            (omega (arith, length-drop b (as_ref (h.block k)), size, fits)) known))

  bytes_to_read-eq :
      (len read k b todo : ℕ)
      → b < 512
      → k * 512 + b + todo ≤ entry.size
      → entry.size < 2 ^ 32
      → todo ≡ min (len - read) (entry.size - (k * 512 + b))
      → bytes_to_read x d as_ref fat s (at_offset entry cluster (k * 512 + b)) len read b
        ≡ min todo (512 - b)
  unfolding bytes_to_read wrapping_sub file_length
  bytes_to_read-eq len read k b todo lt inside small rest =
      rw bps (omega (arith, lt, inside, small, rest))

  -- A round that is the last one, and one that goes on with the next sector of the cluster.
  module _ (fuel len k b n : ℕ) (read : List ℕ) (lt : k < sectors_per_cluster fat.bpb)
      (fits : b + n ≤ 512)
      (size : bytes_to_read x d as_ref fat s
          (at_offset entry cluster (k * 512 + b))
          len
          (length read)
          b
        ≡ n) where
    read_loop-last :
        (length (read ++ run_of byte n (k * 512 + b)) == len || k * 512 + b + n == entry.size)
          ≡ true
        → read_loop x d as_ref fat s (suc fuel) (at_offset entry cluster (k * 512 + b)) len read k b
          ≡ some (
              returns
                (transfer entry cluster (read ++ run_of byte n (k * 512 + b)) (k * 512 + b + n)))
    unfolding read_loop file_length
    read_loop-last over =
        rw (read_loop, h.reads k lt, size, slice-run_of k b n lt fits, size, over, size) refl

    read_loop-next :
        (length (read ++ run_of byte n (k * 512 + b)) == len || k * 512 + b + n == entry.size)
          ≡ false
        → suc k < sectors_per_cluster fat.bpb
        → read_loop x d as_ref fat s (suc fuel) (at_offset entry cluster (k * 512 + b)) len read k b
          ≡ read_loop x d as_ref fat s fuel
              (at_offset entry cluster (k * 512 + b + n))
              len
              (read ++ run_of byte n (k * 512 + b))
              (suc k)
              0
    unfolding read_loop file_length next_sector
    read_loop-next over more_sectors =
        let inside : (suc k == sectors_per_cluster fat.bpb) ≡ false =
          ground (arith, more_sectors) in
        rw (read_loop, h.reads k lt, size, slice-run_of k b n lt fits, size, over, inside, size)
          refl

  -- With `todo` bytes still to read, the loop fills in the bytes of the file from its offset on.
  pub read_loop-transfer :
      (fuel len todo : ℕ) (read : List ℕ) (k b : ℕ)
      → todo < fuel
      → b < 512
      → k < sectors_per_cluster fat.bpb
      → k * 512 + b + todo ≤ sectors_per_cluster fat.bpb * 512
      → k * 512 + b + todo ≤ entry.size
      → entry.size < 2 ^ 32
      → todo ≡ min (len - length read) (entry.size - (k * 512 + b))
      → length read ≤ len
      → read_loop x d as_ref fat s fuel (at_offset entry cluster (k * 512 + b)) len read k b
        ≡ some (
            returns (
              transfer entry cluster (read ++ run_of byte todo (k * 512 + b)) (k * 512 + b + todo)))
  read_loop-transfer zero len todo read k b enough bb lt inside inside' small rest short =
      absurd (omega (arith, enough))
  read_loop-transfer (suc fuel) len todo read k b enough bb lt inside inside' small rest short =
      let size = bytes_to_read-eq len (length read) k b todo bb inside' small rest in
      elim (Bool-cases (leb todo (512 - b))) [
        | inl last ↦
            let all : min todo (512 - b) ≡ todo = ground (arith, last) in
            let count = length-append read (run_of byte todo (k * 512 + b)) in
            let count' = length-run_of byte todo (k * 512 + b) in
            read_loop-last fuel len k b todo read lt (ground (arith, last, bb)) (size ∙ all)
              (ground (arith, count, count', rest, short, inside'))
        | inr more_todo ↦
            let n = 512 - b in
            let part : min todo n ≡ n = ground (arith, more_todo) in
            let left : n < todo = ground (arith, more_todo) in
            let count = length-append read (run_of byte n (k * 512 + b)) in
            let count' = length-run_of byte n (k * 512 + b) in
            let there : k * 512 + b + n ≡ suc k * 512 + 0 = omega (arith, bb) in
            let read' = read ++ run_of byte n (k * 512 + b) in
            let onward =
              read_loop-transfer fuel len (todo - n) read' (suc k) 0
                (omega (arith, enough, left, bb)) (omega arith) (omega (arith, inside, left, bb))
                (omega (arith, inside, left, bb)) (omega (arith, inside', left, bb)) small
                (omega (arith, rest, count, count', left, bb))
                (omega (arith, rest, count, count', left, bb)) in
            let joined : read' ++ run_of byte (todo - n) (suc k * 512 + 0)
                ≡ read ++ run_of byte todo (k * 512 + b) =
              let all : n + (todo - n) ≡ todo = omega (arith, left) in
              append_assoc read (run_of byte n (k * 512 + b))
                (run_of byte (todo - n) (suc k * 512 + 0))
              ∙ ap (λ i. read ++ (run_of byte n (k * 512 + b) ++ run_of byte (todo - n) i))
                  (sym there)
              ∙ ap (λ r. read ++ r) (run_of-append byte n (todo - n) (k * 512 + b))
              ∙ ap (λ m. read ++ run_of byte m (k * 512 + b)) all in
            let end : suc k * 512 + 0 + (todo - n) ≡ k * 512 + b + todo = omega (arith, left, bb) in
            read_loop-next fuel len k b n read lt (omega (arith, bb)) (size ∙ part)
              (ground (arith, count, count', rest, short, inside', left))
              (omega (arith, inside, left, bb))
            ∙ ap
                (λ o.
                  read_loop x d as_ref fat s fuel (at_offset entry cluster o) len read' (suc k) 0)
                there
            ∙ onward
            ∙ ap (λ r. some (returns (transfer entry cluster r (suc k * 512 + 0 + (todo - n)))))
                joined
            ∙ ap
                (λ o.
                  some
                    (returns (transfer entry cluster (read ++ run_of byte todo (k * 512 + b)) o)))
                end
      ]
