-- ===== src/Bluez/GattHelpers/Visits.antt =====
-- The iterators find the entries of the responses that were stored.
use minipro.Bluez.GattHelpers.Iter.{Iter}
