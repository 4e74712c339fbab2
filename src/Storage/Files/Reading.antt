-- ===== src/Storage/Files/Reading.antt =====
-- pkg/storage/src/fs/fat16/file.rs and pkg/storage/src/common/io.rs: what is read of a file, as long as it
-- stays in its first cluster.
use sysu_ysosv.Prelude.{
  ℕ, suc, ◌+◌, ◌-◌, ◌*◌, ◌/◌, ◌%◌, ◌^◌, ◌<◌, ◌≤◌, ◌≡◌, refl, ap, subst, ◌∙◌, min, true, false, some,
  List, [], ◌++◌, arith, length, ◌≢◌, replicate, ◌==◌, returns,
}
use sysu_ysosv.Prelude.Result.{ok}
use sysu_ysosv.Storage.Device.{BlockDevice}
use sysu_ysosv.Storage.Fat.{Fat16, sectors_per_cluster}
use sysu_ysosv.Storage.Entries.{Externals, DirEntry}
use sysu_ysosv.Storage.Paths.{File}
use sysu_ysosv.Storage.Files.{bytes_per_sector, read_loop, read_file, read_rounds, read_all}
use sysu_ysosv.Storage.Files.Sectors.{HoldsCluster, at_offset, transfer, read_loop-transfer}
use sysu_ysosv.Storage.Files.Runs.{run_of, length-run_of}

module _ (x : Externals) (d : BlockDevice) (as_ref : d.Block → List ℕ) (fat : Fat16) (s : d.State)
    (byte : ℕ → ℕ) (bps : bytes_per_sector fat.bpb ≡ 512) (entry : DirEntry x) (cluster : ℕ)
    (h : HoldsCluster d as_ref fat s cluster byte) where
  -- If the blocks of the first cluster of a file can be read, a read that stays in that cluster, at an offset up to its size, ends and fills in
  -- as many bytes as the buffer takes and the file has left: the bytes of the file from the offset
  -- on. The offset moves behind them.
  pub read_file-run_of :
      (fuel len o : ℕ)
      → let todo = min len (entry.size - o) in
        todo < fuel
        → o < sectors_per_cluster fat.bpb * 512
        → o + todo ≤ sectors_per_cluster fat.bpb * 512
        → o ≤ entry.size
        → entry.size < 2 ^ 32
        → read_file x d as_ref fat s fuel (at_offset entry cluster o) len
          ≡ some (returns (transfer entry cluster (run_of byte todo o) (o + todo)))
  unfolding read_file
  read_file-run_of fuel len o enough here inside le small =
      let todo = min len (entry.size - o) in
      let k = o / 512 in
      let b = o % 512 in
      let parts : k * 512 + b ≡ o = omega arith in
      let some_bytes : (bytes_per_sector fat.bpb == 0) ≡ false = ground (arith, bps) in
      let done =
        read_loop-transfer x d as_ref fat s byte bps entry cluster h fuel len todo [] k b enough
          (omega arith) (omega (arith, here)) (omega (arith, inside)) (omega (arith, le)) small
          (omega (arith, parts)) (omega arith) in
      rw (read_file, some_bytes, bps)
        (subst
          (λ i.
            read_loop x d as_ref fat s fuel (at_offset entry cluster i) len [] k b
            ≡ some (returns (transfer entry cluster (run_of byte todo i) (i + todo))))
          parts done)

  -- A round of read_all that is the last one, and one that is not.
  module _ (fuel rounds acc o : ℕ) (bytes buf : List ℕ) (file : File x)
      (e : read_file x d as_ref fat s fuel file 1024
        ≡ some (returns (transfer entry cluster bytes o))) where
    round-last :
        length bytes ≡ 0
        → read_rounds x d as_ref fat s fuel (suc rounds) file acc buf
          ≡ some (returns (ok (acc, buf ++ (bytes ++ replicate (1024 - length bytes) 0))))
    unfolding read_rounds
    round-last over =
        let over' : (length bytes == 0) ≡ true = ground (arith, over) in
        rw (read_rounds, e, over') refl

    round-next :
        length bytes ≢ 0
        → read_rounds x d as_ref fat s fuel (suc rounds) file acc buf
          ≡ read_rounds x d as_ref fat s fuel rounds
              (at_offset entry cluster o)
              (acc + length bytes)
              (buf ++ (bytes ++ replicate (1024 - length bytes) 0))
    unfolding read_rounds
    round-next over =
        let over' : (length bytes == 0) ≡ false = ground (arith, over) in
        rw (read_rounds, e, over') refl

  -- If the blocks of the first cluster can be read, reading all of a file that has 1 to 1024 bytes and does not fill
  -- that cluster ends, and answers its
  -- size; but it adds 2048 bytes to the buffer: those of the file, and zeros behind them.
  pub read_all-pads :
      (fuel rounds : ℕ) (buf : List ℕ)
      → 1024 < fuel
      → 0 < entry.size
      → entry.size ≤ 1024
      → entry.size < sectors_per_cluster fat.bpb * 512
      → read_all x d as_ref fat s fuel (suc (suc rounds)) (at_offset entry cluster 0) buf
        ≡ some (
            returns (
              ok (
                entry.size,
                (buf ++ (run_of byte entry.size 0 ++ replicate (1024 - entry.size) 0))
                    ++ replicate 1024 0,
              )))
  unfolding read_all run_of
  read_all-pads fuel rounds buf enough some_bytes short inside =
      let n = entry.size in
      let all : min 1024 (n - 0) ≡ n = omega (arith, short) in
      let rest : min 1024 (n - n) ≡ 0 = omega arith in
      let start : 0 + n ≡ n = omega arith in
      let end : n + 0 ≡ n = omega arith in
      let bytes = run_of byte n 0 in
      let size = length-run_of byte n 0 in
      let buf' = buf ++ (bytes ++ replicate (1024 - length bytes) 0) in
      let first : read_file x d as_ref fat s fuel (at_offset entry cluster 0) 1024
          ≡ some (returns (transfer entry cluster bytes n)) =
        subst
          (λ k.
            read_file x d as_ref fat s fuel (at_offset entry cluster 0) 1024
            ≡ some (returns (transfer entry cluster bytes k)))
          start
          (subst
            (λ m.
              read_file x d as_ref fat s fuel (at_offset entry cluster 0) 1024
              ≡ some (returns (transfer entry cluster (run_of byte m 0) (0 + m))))
            all
            (read_file-run_of fuel 1024 0 (omega (arith, enough))
              (omega (arith, inside, some_bytes)) (omega (arith, inside, short)) (omega arith)
              (omega (arith, short)))) in
      let second : read_file x d as_ref fat s fuel (at_offset entry cluster n) 1024
          ≡ some (returns (transfer entry cluster [] (n + 0))) =
        subst
          (λ m.
            read_file x d as_ref fat s fuel (at_offset entry cluster n) 1024
            ≡ some (returns (transfer entry cluster (run_of byte m n) (n + m))))
          rest
          (read_file-run_of fuel 1024 n (omega (arith, enough)) inside (omega (arith, inside, rest))
            (omega arith) (omega (arith, short))) in
      let count : 0 + length bytes ≡ n = omega (arith, size) in
      round-next fuel (suc rounds) 0 n bytes buf (at_offset entry cluster 0) first
        (omega (arith, size, some_bytes))
      ∙ round-last fuel rounds (0 + length bytes) (n + 0) [] buf' (at_offset entry cluster n) second
          refl
      ∙ ap (λ m. some (returns (ok (m, buf' ++ replicate 1024 0)))) count
      ∙ ap
          (λ m.
            some (returns (ok (n, (buf ++ (bytes ++ replicate (1024 - m) 0)) ++ replicate 1024 0))))
          size
