-- ===== src/Events/Proxy.antt =====
-- EventHandlerProxy (include/asyncgi/detail/eventhandlerproxy.h, src/eventhandlerproxy.cpp). `H` is the
-- user's event handler with its state, and `handle` its operator(). The handlers that user code keeps
-- go by their number.
use asyncgi.Common.{ℕ, List, Bytes, update}
use asyncgi.Events.{ErrorEvent}

-- How user code passes its handler.
pub data Passed {ℓ} (H : Type ℓ) : Type ℓ where
  lvalue : ℕ → Passed H
  rvalue : H → Passed H

-- What the std::function holds: the empty function, a std::reference_wrapper, or a handler.
pub data ErrorHandler {ℓ} (H : Type ℓ) : Type ℓ where
  ignoring : ErrorHandler H
  by_reference : ℕ → ErrorHandler H
  stored : H → ErrorHandler H

pub record EventHandlerProxy {ℓ} (H : Type ℓ) : Type ℓ where
  pub error_handler : ErrorHandler H

module _ {ℓ} {H : Type ℓ} where
  -- EventHandlerProxy()
  abbrev pub default_proxy : EventHandlerProxy H
  default_proxy = record { error_handler = ignoring }

  unfoldable pub ref_wrapper_or_rvalue : Passed H → ErrorHandler H
  ref_wrapper_or_rvalue (lvalue r) = by_reference r
  ref_wrapper_or_rvalue (rvalue h) = stored h

  unfoldable pub proxy_of : Passed H → EventHandlerProxy H
  unfolding ref_wrapper_or_rvalue
  proxy_of passed = record { error_handler = ref_wrapper_or_rvalue passed }

  -- operator()
  unfoldable pub call_proxy :
      (H → ErrorEvent → Bytes → H)
      → ErrorEvent
      → Bytes
      → EventHandlerProxy H × List H
      → EventHandlerProxy H × List H
  call_proxy handle event message (p, kept) = elim p.error_handler [
    | ignoring ↦ (p, kept)
    | by_reference r ↦ (p, update r (λ h. handle h event message) kept)
    | stored h ↦ (record { error_handler = stored (handle h event message) }, kept)
  ]
