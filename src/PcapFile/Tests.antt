-- ===== src/PcapFile/Tests.antt =====
-- The theorems on module/pcap/pcap_save_file.c at short captures, on a disk that is one file.
use wsn_test_platform.Shared.{
  true, some, List, [], ◌∷◌, ◌++◌, ◌≡◌, refl, length, Returns, replicate, arith,
}
use wsn_test_platform.Protocol.{Bytes}
use wsn_test_platform.PcapFile.{Capture, Disk, Tm, test_pcap_save_file, linktype_ethernet}
use wsn_test_platform.PcapFile.Reader.{read_capture}
use wsn_test_platform.PcapFile.RoundTrip.{IsDisk, test_pcap_save_file-read_capture}

abbrev new_year : Tm
new_year = record { tm_year = 114; tm_mon = 0; tm_mday = 1; tm_hour = 0; tm_min = 0; tm_sec = 0 }

abbrev one_file : Disk Bytes
one_file = record {
  long_width = 4;
  localtime = λ w. (new_year, w);
  gettimeofday = λ w. ((1388534400, 17), w);
  malloc = λ n w. (true, w);
  creat = λ path w. (some 3, []);
  write = λ fd bs w. (some (length bs), w ++ bs);
  close = λ fd w. w;
}

one_file-IsDisk : IsDisk one_file 3 (λ w. w)
one_file-IsDisk = record {
  narrow = refl;
  date = λ w. record {
    year = omega arith;
    mon = omega arith;
    mday = omega arith;
    hour = omega arith;
    minute = omega arith;
    second = omega arith;
  };
  date_keeps = λ w. refl;
  seconds = λ w. omega arith;
  microseconds = λ w. omega arith;
  clock_keeps = λ w. refl;
  memory = λ n w. refl;
  created = λ path w. refl;
  created_empty = λ path w. refl;
  wrote = λ bs w. refl;
  write_appends = λ bs w. refl;
  close_keeps = λ w. refl;
}

abbrev two_packets : List Capture
two_packets = record { packet = 1 ∷ 2 ∷ 3 ∷ []; len = 3 } ∷ record { packet = 9 ∷ []; len = 1 } ∷ []

test_pcap_save_file-read_capture_example :
    Returns
      (λ status t. (status ≡ 0) × (read_capture t ≡ some (linktype_ethernet, two_packets)))
      (test_pcap_save_file one_file (some two_packets ∷ []) [])
test_pcap_save_file-read_capture_example =
    test_pcap_save_file-read_capture one_file 3 (λ w. w) one_file-IsDisk two_packets []
      (
        record { complete = refl; fits = omega arith },
        (record { complete = refl; fits = omega arith }, tt),
      )

abbrev jumbo : Capture
jumbo = record { packet = replicate 65600 0; len = 65600 }
