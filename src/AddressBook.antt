-- ===== src/AddressBook.antt =====
-- The address book: src/common/address-book/{actions,operations,reducers,selectors}.js and
-- src/main/address-book/address-book-service.js. The service's calls of the table are an interface,
-- and are taken not to fail.
pub mod State
pub mod Operations
pub mod Labels
pub mod Addresses
mod Tests
