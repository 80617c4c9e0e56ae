-- ===== src/Task/Exchange.antt =====
-- The exchange area of a task, where the kernel leaves events and answers: `exchange_event_t` of
-- uapi/include/uapi/types.h, and the writes of kernel/src/managers/task/task_core.c and of the gates.
use sentry_kernel.Base.{ℕ, ◌/◌, ◌%◌, ◌^◌, refl, List, [], ◌∷◌, ◌++◌}
use sentry_kernel.Task.{TaskTable, get_from_handle, write}
use sentry_kernel.Task.Agree.{Agree, write_agrees}

-- `memcpy` to the start of an area: what does not fit is out of the model.
abbrev pub overwrite : List ℕ → List ℕ → List ℕ
overwrite [] area = area
overwrite (b ∷ bs) [] = []
overwrite (b ∷ bs) (a ∷ area) = b ∷ overwrite bs area

-- The bytes of a word in memory.
abbrev pub word_bytes : ℕ → List ℕ
word_bytes w = w % 256 ∷ w / 2 ^ 8 % 256 ∷ w / 2 ^ 16 % 256 ∷ w / 2 ^ 24 % 256 ∷ []

-- `exchange_event_t`: type, length, the magic 0x4242 and the source, then the data.
abbrev pub event_bytes : ℕ → ℕ → ℕ → List ℕ → List ℕ
event_bytes type len source payload =
    type % 256 ∷ len % 256 ∷ 0x42 ∷ 0x42 ∷ (word_bytes source ++ payload)

-- The values of EventType.
abbrev pub event_type_ipc : ℕ
event_type_ipc = 1

abbrev pub event_type_signal : ℕ
event_type_signal = 2

abbrev pub event_type_irq : ℕ
event_type_irq = 4

abbrev pub event_type_dma : ℕ
event_type_dma = 8

-- A write to the exchange area of the task behind a handle.
unfoldable pub put_exchange : ℕ → List ℕ → TaskTable → TaskTable
put_exchange h bytes tab =
    (write (λ t. record t { svcexchange = overwrite bytes t.svcexchange }) tab h
      (get_from_handle tab h)).1

pub put_exchange-Agree :
    (h : ℕ) (bytes : List ℕ) (tab : TaskTable) → Agree tab (put_exchange h bytes tab)
unfolding put_exchange
put_exchange-Agree h bytes tab = write_agrees tab h _ (λ t. (refl, refl))
