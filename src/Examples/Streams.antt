-- ===== src/Examples/Streams.antt =====
-- The theorems on DMA streams at a concrete controller: a stream of the first task, assigned, and one
-- of the second task, started.
use sentry_kernel.Base.{
  ℕ, ◌+◌, ◌*◌, ◌≡◌, refl, false, some, [], ◌∷◌, arith, ◌==◌, if◌then◌else◌, ret, success,
}
use sentry_kernel.KTypes.{okay, error_badstate, error_unknown}
use sentry_kernel.Task.{index_of, get_from_handle, get_metadata, get_handle}
use sentry_kernel.Dma.{
  StreamCfg, DmaMeta, assigned, started, StreamConfig, Gpdma, Dma, fresh_stream, get_config,
  get_owner, put_stream, init_streams,
}
use sentry_kernel.Dma.Calls.{stream_start}
use sentry_kernel.Dma.Automaton.{unassign, start, suspend, Ends, Wired, stream_call_lem}
use sentry_kernel.Dma.Lookup.{init_streams-owner}
use sentry_kernel.Dma.Release.{Works, run_calls, Released, release_lem}
use sentry_kernel.Syscalls.Dma.Gates.{gate_of, Verdict, Answers, gate_dma_lem}
use sentry_kernel.Examples.{meta_of, first_handle, second_handle, three_tasks}
use sentry_kernel.Examples.Kernels.{rrmq, small_kernel, current_is_first}

abbrev stream_cfg : StreamCfg
stream_cfg = record {
  channel = 1;
  stream = 3;
  controller = 0;
  transfer_type = 1;
  source = 0;
  dest = 0x2000;
  transfer_len = 64;
  circular_source = false;
  circular_dest = false;
  interrupts = 1;
  is_triggered = false;
  trigger = 0;
  priority = 2;
  transfer_mode = 2;
  src_beat_len = 0;
  dest_beat_len = 0;
}

abbrev stream_meta : ℕ → ℕ → DmaMeta
stream_meta label owner = record { label = label; owner = owner; config = stream_cfg }

-- A driver that succeeds, over a count of its writes.
abbrev counting : Gpdma ℕ
counting = record {
  probe = λ _ n. (okay, n + 1);
  configure = λ _ n. (okay, n + 1);
  enable = λ _ n. (okay, n + 1);
  suspend = λ _ n. (okay, n + 1);
  resume = λ _ n. (okay, n + 1);
  reset = λ _ n. (okay, n + 1);
  get_status = λ _ _. success (record { state = 1; half_reached = 0; completed = 1 });
  clear_status = λ _ n. n + 1;
  get_interrupt = λ cfg. success (cfg.channel + 30);
  enable_irq = λ _ n. n + 1;
}

abbrev first_stream : StreamConfig
first_stream = record (fresh_stream 0 7 (stream_meta 20 1) first_handle) { state = assigned }

abbrev second_stream : StreamConfig
second_stream = record (fresh_stream 1 9 (stream_meta 21 2) second_handle) { state = started }

abbrev two_streams : Dma ℕ
two_streams = record { streams = first_stream ∷ second_stream ∷ []; hw = 0 }

counting-Wired : (dmah : ℕ) → Wired counting two_streams dmah
counting-Wired dmah i s e = (s.meta.config.channel + 30, refl)

-- A driver of one channel that is idle at 0, runs at 1 and is suspended at 2, and refuses to suspend or
-- to reset it in the wrong state.
abbrev one_channel : Gpdma ℕ
one_channel = record counting {
  suspend = λ _ n. if n == 1 then (okay, 2) else (error_badstate, n);
  reset = λ _ n. if n == 2 then (okay, 0) else (error_badstate, n);
}

abbrev IsAt : ℕ → StreamCfg → ℕ → Type 0
IsAt k cfg n = n ≡ k

one_channel-Works : Works one_channel (IsAt 1) (IsAt 2)
one_channel-Works = record {
  suspends = λ cfg n e. (rw e refl, rw e refl);
  resets = λ cfg n e. rw e refl;
}

abbrev running : Dma ℕ
running = record { streams = first_stream ∷ second_stream ∷ []; hw = 1 }

second_stream_found : get_config running second_stream.handle ≡ some (1, second_stream)
unfolding get_config
second_stream_found = refl

gate_dma_lem_example :
    Answers rrmq counting 1 55 first_handle first_stream.handle
      (meta_of first_handle 3)
      small_kernel
      two_streams
      (Verdict counting start 1 0xffff first_handle first_stream.handle two_streams)
      (gate_of start rrmq counting 1 55 first_stream.handle small_kernel two_streams)
gate_dma_lem_example =
    gate_dma_lem rrmq counting start 1 55 first_handle first_stream.handle (meta_of first_handle 3)
      small_kernel two_streams current_is_first
      (unfold get_metadata get_from_handle index_of in refl) (counting-Wired first_stream.handle)

stream_call_lem_example : Ends counting suspend second_stream.handle two_streams
stream_call_lem_example =
    stream_call_lem counting suspend second_stream.handle two_streams
      (counting-Wired second_stream.handle)

release_lem_example :
    (d' : Dma ℕ) × (run_calls one_channel second_stream.handle (suspend ∷ unassign ∷ []) running
      ≡ ret d')
    × Released second_stream.handle 1 running second_stream d'
release_lem_example =
    release_lem one_channel (IsAt 1) (IsAt 2) second_stream.handle 1 running second_stream
      one_channel-Works refl second_stream_found

-- What the initialisation makes of the two descriptions.
init_makes_two :
    init_streams counting
      (λ id. success (id * 2 + 7))
      three_tasks
      0
      (stream_meta 20 1 ∷ stream_meta 21 1048578 ∷ [])
      (first_stream ∷ first_stream ∷ [])
      0
    ≡ ret (
      okay,
      record {
        streams =
            fresh_stream 0 7 (stream_meta 20 1) first_handle
            ∷ fresh_stream 1 9 (stream_meta 21 1048578) second_handle
            ∷ [];
        hw = 2;
      },
    )
unfolding init_streams get_handle
init_makes_two = refl

-- A start is recorded whatever the driver says.
start_without_driver :
    stream_start
      (record counting { enable = λ _ n. (error_unknown, n) })
      first_stream.handle
      two_streams
    ≡ ret (error_unknown, put_stream 0 (record first_stream { state = started }) 0 two_streams)
unfolding stream_start get_config
start_without_driver = refl

abbrev made_streams : Dma ℕ
made_streams = record {
  streams =
      fresh_stream 0 7 (stream_meta 20 1) first_handle
      ∷ fresh_stream 1 9 (stream_meta 21 1048578) second_handle
      ∷ [];
  hw = 2;
}

made_found :
    get_config made_streams second_stream.handle
    ≡ some (1, fresh_stream 1 9 (stream_meta 21 1048578) second_handle)
unfolding get_config
made_found = refl

init_streams-owner_example : get_owner made_streams second_stream.handle ≡ success second_handle
init_streams-owner_example =
    init_streams-owner counting (λ id. success (id * 2 + 7)) three_tasks
      (stream_meta 20 1 ∷ stream_meta 21 1048578 ∷ []) (first_stream ∷ first_stream ∷ []) 0
      made_streams second_stream.handle 1 (fresh_stream 1 9 (stream_meta 21 1048578) second_handle)
      (omega arith) refl init_makes_two made_found
