-- ===== src/Providers.antt =====
-- core/alteriom_hil/providers.py: the key that seals a provider's link, and the messages of a day.
pub mod Der
pub mod Budget
mod Tests
