-- ===== src/Native/Files/Tests.antt =====
-- A concrete bridge for src/nativeio.c, whose host goes away before the file is closed.
use ffmpeg_wasi.Base.{◌≡◌, refl, ℕ, suc, ◌-◌, true, false, [], ◌∷◌, none, some, arith, length}
use ffmpeg_wasi.Base.Text.{codes}
use ffmpeg_wasi.Av.{eio, ok}
use ffmpeg_wasi.Native.Files.{Calls, afio_ipc_open, afio_ipc_close, afio_write_file}
use ffmpeg_wasi.Native.Files.Reported.{IsCalls, Reported, afio_write_file-Reported}

-- The state is the number of open sessions, and the Close frame is lost.
abbrev calls : Calls ℕ
calls = record {
  dial = λ name mode n. (some 3, suc n);
  avio_write = λ fd bytes n. n;
  avio_flush = λ fd n. n;
  pb_error = λ fd n. none;
  send_close = λ fd n. (false, n);
  close = λ fd n. n - 1;
  avio_open = λ path n. (ok 0, n);
  avio_closep = λ fd n. n;
  fopen = λ path n. (true, n);
  fwrite = λ bytes n. (length bytes, n);
  fclose = λ n. (true, n);
}

laws : IsCalls calls (λ n. n)
laws = record {
  dial-sessions = λ name mode n. omega arith;
  write-sessions = λ fd bytes n. refl;
  flush-sessions = λ fd n. refl;
  send-sessions = λ fd n. refl;
  close-sessions = λ fd n. refl;
}

lost : afio_write_file calls true (codes "a.png") (1 ∷ 2 ∷ []) 5 ≡ (some eio, 5)
unfolding afio_write_file afio_ipc_open afio_ipc_close
lost = refl

afio_write_file-Reported_example :
    Reported calls
      (λ n. n)
      laws
      (1 ∷ 2 ∷ [])
      5
      (afio_ipc_open calls (codes "a.png") true 5)
      (afio_write_file calls true (codes "a.png") (1 ∷ 2 ∷ []) 5)
afio_write_file-Reported_example =
    afio_write_file-Reported calls (λ n. n) laws (codes "a.png") (1 ∷ 2 ∷ []) 5
