-- ===== src/State/Tests.antt =====
-- Runs of the state theorems on the mapping of the crate's own test of a sequence: 1024 words of
-- zeros, two descriptors and a buffer of 128 bytes.
use shmfd.Prelude.{ℕ, ◌≤◌, ◌≡◌, ◌≢◌, refl, arith, done, some, ok, List, [], ◌∷◌}
use shmfd.Prelude.Words.{is_power_of_two}
use shmfd.Fd.Text.{pos}
use shmfd.State.Area.{VTable, AreaFd, ring_new}
use shmfd.State.Area.Whole.{ring_new-wrap}
use shmfd.State.Ring.{RingMapped, Descriptor, layout_for, wrap, push, restore}
use shmfd.State.Ring.Marks.{IsRing, slot, slot_address, wrapped}
use shmfd.State.Ring.Restore.{IsActive, Restored, restore-Restored}
use shmfd.State.Ring.Push.{PushRestores, push-PushRestores}
use shmfd.State.Ring.Recombine.{IsDescriptor, recombine_u64_lem}
use shmfd.State.Ring.Invalidate.{Invalidates, invalidate-Invalidates, restore-push-push}
use shmfd.State.Seq.{SeqLayout, SeqInner, seq_layout_for, seq_wrap, get}
use shmfd.State.Seq.Stored.{IsSeq, Fits}
use shmfd.State.Seq.RoundTrip.{Sets, set-Sets, SetRestores, set-SetRestores, get_four}
use shmfd.State.Seq.Wrap.{seq_wrap-IsSeq}

abbrev zero_words : ℕ → ℕ
zero_words x = 0

abbrev region : RingMapped
region = wrapped zero_words 1024 2

wrap-region : wrap zero_words 1024 2 ≡ ok region
unfolding wrap layout_for is_power_of_two
wrap-region = refl

region-IsRing : IsRing region
region-IsRing = record {
  first = refl;
  power = record { exponent = 1; is_power = refl; small = omega arith };
  fits = omega arith;
  words_fit = λ a. omega arith;
}

restore-Restored_example : Restored region
restore-Restored_example = restore-Restored region region-IsRing

abbrev first_write : Descriptor
first_write = record { payload = 13; start = 0; finish = 848 }

abbrev second_write : Descriptor
second_write = record { payload = 7; start = 0; finish = 848 }

first_write-IsDescriptor : IsDescriptor first_write
first_write-IsDescriptor = record {
  payload_lt = omega arith;
  start_lt = omega arith;
  finish_lt = omega arith;
}

inactive : (j : ℕ) → j ≤ 1 → j ≢ slot region 0 → ¬ (IsActive zero_words j)
inactive j le ne act =
    omega (arith, act, recombine_u64_lem zero_words (slot_address j) (omega arith))

push-PushRestores_example : PushRestores region first_write
push-PushRestores_example =
    push-PushRestores region first_write region-IsRing first_write-IsDescriptor inactive

invalidate-Invalidates_example : Invalidates region 1
invalidate-Invalidates_example = invalidate-Invalidates region 1 region-IsRing

restore-push-push_example :
    (one two : RingMapped) × (push region first_write ≡ done (0, one))
    × (push one second_write ≡ done (1, two))
    × ((p g : ℕ)
        → (g' : ℕ) × (restore (record two { position = p; generation = g })
            ≡ done (some first_write, record two { position = 0; generation = g' })))
restore-push-push_example =
    restore-push-push zero_words 1024 2 first_write second_write (λ a. refl) region-IsRing
      (omega arith) first_write-IsDescriptor

abbrev seq_layout : SeqLayout
seq_layout = record { data_offset = 880; buffer_mask = 127; tail = 848 }

layout_accepted : seq_layout_for 944 128 ≡ ok seq_layout
unfolding seq_layout_for is_power_of_two
layout_accepted = refl

abbrev seq : SeqInner
seq = record { ring = region; layout = seq_layout; begin = 0; len = 0; descriptor = 0 }

seq_wrapped : seq_wrap region 128 ≡ done (ok seq)
unfolding seq_wrap
seq_wrapped = rw layout_accepted

seq_wrap-IsSeq_example : IsSeq seq
seq_wrap-IsSeq_example =
    seq_wrap-IsSeq region 128 region-IsRing (omega arith) (omega arith) seq_wrapped

seq-IsSeq : IsSeq seq
seq-IsSeq = seq_wrap-IsSeq region 128 region-IsRing (omega arith) (omega arith) seq_wrapped

abbrev hello : List ℕ
hello = 72 ∷ 101 ∷ 108 ∷ 108 ∷ 111 ∷ []

hello-Fits : Fits seq hello
hello-Fits = record {
  half = omega arith;
  room = omega arith;
  bytes = (omega arith, (omega arith, (omega arith, (omega arith, (omega arith, tt)))));
}

set-Sets_example : Sets seq hello (0 ∷ 0 ∷ 0 ∷ 0 ∷ 0 ∷ [])
set-Sets_example =
    set-Sets seq hello (0 ∷ 0 ∷ 0 ∷ 0 ∷ 0 ∷ []) seq-IsSeq hello-Fits (λ z. omega (arith, z)) refl

set-SetRestores_example : SetRestores seq hello (0 ∷ 0 ∷ 0 ∷ 0 ∷ 0 ∷ [])
set-SetRestores_example =
    set-SetRestores seq hello (0 ∷ 0 ∷ 0 ∷ 0 ∷ 0 ∷ []) seq-IsSeq hello-Fits (λ z. omega (arith, z))
      refl refl inactive

-- A buffer of eight bytes takes at most three.
abbrev narrow : SeqInner
narrow = record seq { layout = record { data_offset = 880; buffer_mask = 7; tail = 878 } }

abbrev four : SeqInner
four = record seq { len = 4 }

four-IsSeq : IsSeq four
four-IsSeq = record {
  ring = seq-IsSeq.ring;
  power = seq-IsSeq.power;
  mask_lt = seq-IsSeq.mask_lt;
  at_start = refl;
  data_end = refl;
  buffer = seq-IsSeq.buffer;
  inside = seq-IsSeq.inside;
  len_lt = seq-IsSeq.len_lt;
  apart = seq-IsSeq.apart;
}

get_four_example : get four (1 ∷ 2 ∷ 3 ∷ 4 ∷ []) ≡ done (ok 4, 1 ∷ 2 ∷ 3 ∷ 4 ∷ [])
get_four_example = get_four four (1 ∷ 2 ∷ 3 ∷ 4 ∷ []) four-IsSeq refl (omega arith) refl

-- A file of 4099 bytes, mapped at the address 8192.
abbrev mapper : VTable
mapper = record {
  mmap = λ len prot file. 8192;
  errno = 12;
  prot_read = 1;
  prot_write = 2;
  map_failed = 18446744073709551615;
  memory = λ a. zero_words;
}

abbrev file_area : AreaFd
file_area = record { fd = pos 3; len = 4099 }

ring_new-wrap_example : ring_new mapper file_area 2 ≡ done (wrap zero_words 1024 2)
ring_new-wrap_example = ring_new-wrap mapper file_area 2 (λ e. omega (arith, e)) refl
