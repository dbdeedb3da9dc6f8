-- ===== src/Timer.antt =====
-- The timers: src/timerservice.cpp, src/timerprovider.cpp and Timer::waitFuture of
-- include/asyncgi/timer.h.
pub mod Service
pub mod Provider
pub mod Future
